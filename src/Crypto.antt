-- ===== src/Crypto.antt =====
-- v3-crypto/src/lib.rs: the policies around the handshake. `Amplification` is the gate on what is
-- sent before the peer is authenticated, `Replay` the window of sequence numbers, `Certificates`
-- expiry alarms and the rotation of certificates.
pub mod Amplification
pub mod Replay
pub mod Refusals
pub mod Certificates
pub mod FrameAuth
pub mod Frames
pub mod Handshake
pub mod Policy
pub mod Revocation
