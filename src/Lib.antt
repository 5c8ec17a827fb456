-- ===== src/Lib.antt =====
-- Todero Protocol V3: a datagram protocol between a client and a server that survives changes of path.
-- A sender queues messages and announces them in an MSR (message state report); the receiver requests
-- ranges of ids, reassembles fragments, and delivers messages in the order of their ids.
--
-- Parts and how they interact:
-- - Wire (v3-wire/src/lib.rs): frames of a 15-byte header, a payload and a block of TLVs, with
--   `WireFrame::encode` and `WireFrame::decode` as `encode` and `decode`. The `bytes` crate is the
--   parameter `Buf` of Wire.Buffer, with its documented laws as fields.
-- - Core (v3-core/src/lib.rs): `CoreMachine`, the state machine of one session, without I/O. Each public
--   method takes the machine and gives the machine after it and its result (`begin_handshake`,
--   `on_datagram`, `on_timer`, `on_api_send`, `on_api_close`, `on_api_propose_timers`, `on_path_event`).
--   A private handler takes a `Ctx`, the machine and the output that `&mut self` and `&mut out` stand
--   for, and gives an `Outcome`: an error keeps the changes made to the machine before it, and the
--   output is then dropped, as `?` does. Core.Codec has the payloads and TLVs, Core.Handlers,
--   Core.Signals and Core.Sending the handlers, Core.Machine `on_datagram`, Core.Timers and Core.Api
--   the rest. The other modules of Core are theorems: Flush on the delivery loop, Frame and Quiet on
--   handlers that receive nothing, Delivery and Lifecycle on those of a datagram, Settled on what
--   never fails, Acceptance on timer proposals, Inert, Firing and Operations on timers and calls,
--   Session, Silence and Runs on whole runs.
-- - Traversal (v3-nat/src/lib.rs): ICE candidates and checklist, consent keepalives, the TURN
--   allocation, STUN binding messages; Nomination has the theorems on the nominated pair,
--   Retries those on failures of the allocation in a row.
-- - Store (v3-store/src/lib.rs): the trait `SessionStore` is the record Store.Contract.SessionStore of
--   operations and of what they promise of the entry held for an id. Two implementations fill it:
--   Store.Memory the sharded in-memory store, Store.Disk.Promises the log and snapshot store. Calls
--   follow one another; a `HashMap` is an association list, and the order in which it gives its
--   entries is a parameter, with its law in Expiry. Store.Disk has the disk store: the texts of
--   serde_json are the parameter `Serde`, the files are a value, and each call takes what the system
--   answers to its writes. Files has its operations, Replay what `new` reads back, Laws what is
--   relied on of serde_json, Recovery, Durability and Compaction the invariant that the files hold
--   what is in memory, Runs and Equivalence whole runs, Failures refused and cut writes. The disk
--   store writes to its files after it has released its lock: what a call does before and after that
--   are definitions of their own (`put_entry`, `append_entry`, `snapshot_payload`,
--   `write_snapshot`), and Races has two calls that overlap.
-- - Runtime (v3-client-runtime/src/lib.rs, v3-server-runtime/src/lib.rs): `ClientRuntime` and
--   `ServerRuntime` around the session machine: each method is a function from the runtime to the
--   runtime after it and its result, and an error keeps the changes made before it. Timers is the map
--   of deadlines that both poll, Client and its children the client, Server and its children the server
--   with its sessions by connection id, over any `SessionStore`.
-- - Crypto (v3-crypto/src/lib.rs): the gate on what is sent before the peer is authenticated, the replay
--   window, the authentication of frames (`HmacSha256FrameAuth`, over the parameter `Hmac`), the
--   handshake adapter `DtlsBackendAdapter` with its policy checks, certificate alarms and rotation, the
--   revocation list. Refusals, Frames and Policy have theorems on sequences of calls.
-- - Base: numbers, lists, results, machine words as big-endian bytes, and ordered maps.
-- - Examples: the theorems at concrete inputs, with a `Buf` on lists of bytes.
--
-- Conventions: a byte or a word is a number; unchecked u64 sums wrap at 2 ^ 64 as in a release build,
-- saturating ones are written with `min`. Loops are structural or on fuel: `decode_tlvs` and the STUN
-- attributes on the length of their input, `flush_ordered` on the length of its buffer, `chunks` on
-- the length of the message. A round of each takes something off, so the fuel is enough. A request
-- for a range has `end + 1 - start` rounds.
--
-- Not modelled: the Redis store (scripts for a server), the OpenSSL adapter of v3-crypto
-- (glue to that library), v3-orchestrator-api (data only),
-- v3-transport-udp (a constant), v3-ffi (glue), and `gather_host_candidates` of v3-nat. serde_json,
-- base64, the measured latency of the store and the parser of IP addresses are parameters.
pub mod Base
pub mod Wire
pub mod Core
pub mod Traversal
pub mod Store
pub mod Crypto
pub mod Runtime
pub mod Examples
