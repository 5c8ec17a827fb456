-- ===== src/Traversal.antt =====
-- v3-nat/src/lib.rs: the policies and the state of NAT traversal. `Candidates` has the ICE candidates
-- and their selection, `Checklist` the candidate pairs, `Consent` the keepalives of a path, `Turn` the
-- relay allocation, and `Stun` the two messages of a binding.
pub mod Candidates
pub mod Checklist
pub mod Nomination
pub mod Consent
pub mod Turn
pub mod Retries
pub mod Stun
