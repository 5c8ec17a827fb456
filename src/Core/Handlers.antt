-- ===== src/Core/Handlers.antt =====
-- The private methods of `CoreMachine` in v3-core/src/lib.rs that handle the parts of a datagram.
-- u64 sums without `saturating_` wrap, as in a release build.
use todero_protocol_native.Base.{
  ℕ, zero, suc, ◌+◌, not, List, [], ◌∷◌, ◌++◌, Option, none, some, Result, ok, err, ltb, leb, ◌==◌,
  if◌then◌else◌, length, drop,
}
use todero_protocol_native.Base.Words.{from_be_bytes, add_u64}
use todero_protocol_native.Base.BTreeMap.{get, insert, remove, last_key, contains, insert_set}
use todero_protocol_native.Core.Types.{
  is_client, is_server, is_established, TimerId, Event, CoreMachine, FragmentAccumulator, CoreError,
  malformed_data, Ctx, Outcome, done, failed, push_event, push_timer,
}
use todero_protocol_native.Core.Codec.{slice}

abbrev pub client_keepalive_every_server_msr : ℕ
client_keepalive_every_server_msr = 4

abbrev pub max_data_payload_per_frame : ℕ
max_data_payload_per_frame = 1000

abbrev pub fragment_header_len : ℕ
fragment_header_len = 12

-- `out.outbound_datagrams.push(OutboundDatagram { path_id, bytes: bytes? })`
abbrev pub push_datagram : ℕ → Result CoreError (List ℕ) → Ctx → Outcome
push_datagram path_id (ok bytes) c = done (record c {
  out = record (c.out) {
    outbound_datagrams =
        c.out.outbound_datagrams ++ (record { path_id = path_id; bytes = bytes } ∷ []);
  };
})
push_datagram path_id (err e) c = failed e c

unfoldable pub max_pending_id : CoreMachine → ℕ
max_pending_id self = elim (last_key self.outbound_messages) [ none ↦ 0 | some id ↦ id ]

abbrev pub touch_disconnect_deadline : ℕ → CoreMachine → CoreMachine
touch_disconnect_deadline now_ms self = record self {
  disconnect_deadline_ms = some (add_u64 now_ms self.cfg.disconnect_window_ms);
}

unfoldable pub schedule_server_timers : ℕ → Ctx → Ctx
schedule_server_timers now_ms c =
    let c1 = record c { self = touch_disconnect_deadline now_ms c.self } in
    let c2 = push_timer TimerId.server_msr (add_u64 now_ms c1.self.cfg.msr_interval_ms) c1 in
    push_timer TimerId.disconnect (add_u64 now_ms c2.self.cfg.disconnect_window_ms) c2

unfoldable pub schedule_client_timers : ℕ → Ctx → Ctx
schedule_client_timers now_ms c =
    let self = record (c.self) {
      last_server_msr_at_ms = some now_ms;
      client_server_msr_rx_since_last_keepalive = 0;
    } in
    let c1 = record c { self = touch_disconnect_deadline now_ms self } in
    let c2 = push_timer TimerId.client_probe (add_u64 now_ms c1.self.cfg.msr_interval_ms) c1 in
    push_timer TimerId.disconnect (add_u64 now_ms c2.self.cfg.disconnect_window_ms) c2

unfoldable pub on_valid_peer_datagram : ℕ → CoreMachine → CoreMachine
on_valid_peer_datagram now_ms self =
    if not (is_established self.state)
    then self
    else if is_client self.role
    then record self { last_server_msr_at_ms = some now_ms }
    else if is_server self.role
    then record self { server_consecutive_msr_without_client_msr = 0 }
    else self

-- The `while let` of `flush_ordered`. Each round takes an entry out of the buffer, so the buffer's
-- length is enough fuel.
unfoldable pub flush_loop : ℕ → Ctx → Ctx
flush_loop zero c = c
flush_loop (suc fuel) c =
    let next = add_u64 c.self.last_ordered_rx 1 in
    elim (get next c.self.received_buffer) [
      | none ↦ c
      | some ordered_payload ↦ flush_loop fuel (
          push_event (Event.message_received next ordered_payload) (
            push_event (Event.message_delivered next) (record c {
              self = record (c.self) {
                received_buffer = remove next c.self.received_buffer;
                last_ordered_rx = next;
              };
            })))
    ]

unfoldable pub flush_ordered : Ctx → Ctx
flush_ordered c = flush_loop (length c.self.received_buffer) c

unfoldable pub handle_data : List ℕ → Ctx → Outcome
handle_data payload c =
    let msg_id = from_be_bytes (slice 0 8 payload) in
    if ltb (length payload) 8
    then failed malformed_data c
    else if contains msg_id c.self.received_ids
    then done c
    else done (
        flush_ordered (record c {
          self = record (c.self) {
            received_ids = insert_set msg_id c.self.received_ids;
            received_buffer = insert msg_id (drop 8 payload) c.self.received_buffer;
            received_fragments = remove msg_id c.self.received_fragments;
          };
        }))

-- `for i in 0..total`, with the rounds left first; `none` where a chunk is missing.
unfoldable pub merge_chunks : ℕ → ℕ → FragmentAccumulator → List ℕ → Option (List ℕ)
merge_chunks zero i acc merged = some merged
merge_chunks (suc rounds) i acc merged = elim (get i acc.chunks) [
  | none ↦ none
  | some chunk ↦ merge_chunks rounds (i + 1) acc (merged ++ chunk)
]

-- `received_fragments.entry(msg_id).or_default()`, with `total` set by the first fragment.
unfoldable pub open_accumulator : ℕ → ℕ → CoreMachine → FragmentAccumulator
open_accumulator msg_id frag_total self = elim (get msg_id self.received_fragments) [
  | none ↦ record { total = frag_total; chunks = [] }
  | some acc ↦ if acc.total == 0 then record acc { total = frag_total } else acc
]

-- `acc.chunks.entry(frag_idx).or_insert_with(..)`
unfoldable pub add_chunk : ℕ → List ℕ → FragmentAccumulator → FragmentAccumulator
add_chunk frag_idx chunk acc = elim (get frag_idx acc.chunks) [
  | none ↦ record acc { chunks = insert frag_idx chunk acc.chunks }
  | some _ ↦ acc
]

-- `acc` is a reference into `received_fragments`: it is written back.
abbrev pub store_accumulator : ℕ → FragmentAccumulator → Ctx → Ctx
store_accumulator msg_id acc c = record c {
  self = record (c.self) { received_fragments = insert msg_id acc c.self.received_fragments };
}

-- The end of `handle_fragment`, with the chunk added.
unfoldable pub complete_fragment : ℕ → FragmentAccumulator → Ctx → Outcome
complete_fragment msg_id acc c =
    if not (length acc.chunks == acc.total)
    then done c
    else elim (merge_chunks acc.total 0 acc []) [
      | none ↦ failed malformed_data c
      | some merged ↦ done (
          flush_ordered (record c {
            self = record (c.self) {
              received_fragments = remove msg_id c.self.received_fragments;
              received_ids = insert_set msg_id c.self.received_ids;
              received_buffer = insert msg_id merged c.self.received_buffer;
            };
          }))
    ]

unfoldable pub handle_fragment : List ℕ → Ctx → Outcome
handle_fragment payload c =
    let msg_id = from_be_bytes (slice 0 8 payload) in
    let frag_idx = from_be_bytes (slice 8 10 payload) in
    let frag_total = from_be_bytes (slice 10 12 payload) in
    let opened = open_accumulator msg_id frag_total c.self in
    let acc = add_chunk frag_idx (drop fragment_header_len payload) opened in
    if ltb (length payload) fragment_header_len
    then failed malformed_data c
    else if contains msg_id c.self.received_ids
    then done c
    else if frag_total == 0
    then failed malformed_data c
    else if leb frag_total frag_idx
    then failed malformed_data c
    else if not (opened.total == frag_total)
    then failed malformed_data (store_accumulator msg_id opened c)
    else complete_fragment msg_id acc (store_accumulator msg_id acc c)
