-- ===== src/Core.antt =====
-- v3-core/src/lib.rs: the protocol state machine of one session, client or server. `Types` has its
-- data, `Codec` the payloads and TLVs that it puts into frames, `Proposal` the check of a timer
-- proposal, `Handlers` the receiving side and the timers, `Signals` the MSR handlers, `Sending` the
-- answer to a request, `Machine` the handshake and `on_datagram`, `Timers` `on_timer`, and `Api` the
-- calls of the application. The other modules are theorems.
pub mod Types
pub mod Codec
pub mod Proposal
pub mod Acceptance
pub mod Handlers
pub mod Signals
pub mod Sending
pub mod Machine
pub mod Timers
pub mod Api
pub mod Flush
pub mod Frame
pub mod Quiet
pub mod Delivery
pub mod Lifecycle
pub mod Settled
pub mod Session
pub mod Inert
pub mod Firing
pub mod Operations
pub mod Runs
pub mod Silence
