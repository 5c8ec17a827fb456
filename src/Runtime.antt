-- ===== src/Runtime.antt =====
-- v3-client-runtime/src/lib.rs and v3-server-runtime/src/lib.rs: the session machine with its timers,
-- metrics and, on the server, a machine per connection id and the session store.
pub mod Timers
pub mod Due
pub mod Client
pub mod Server
