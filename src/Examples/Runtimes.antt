-- ===== src/Examples/Runtimes.antt =====
-- The theorems of the client and server runtimes, at concrete inputs.
use Prim.Native.String.{String}
use todero_protocol_native.Base.{
  refl, ℕ, ◌+◌, ◌%◌, ◌^◌, ◌≡◌, List, [], ◌∷◌, some, none, arith, take, Option, map, if◌then◌else◌,
}
use todero_protocol_native.Base.Words.{from_be_bytes, from_be_loop, to_be_bytes}
use todero_protocol_native.Base.BTreeMap.{get, insert, remove, contains, insert_set}
use todero_protocol_native.Wire.{
  MessageType, WireFrame, encode, encode_tlvs, validate_frame, to_u8, decode, decode_tlvs,
  decode_tlvs_loop, decode_tlv, from_u8,
}
use todero_protocol_native.Core.Types.{TimerId, default_config}
use todero_protocol_native.Core.Machine
use todero_protocol_native.Core.Machine.{
  on_frame, receive, dispatch, piggyback, server_on_client_hello, client_on_server_hello,
  on_datagram,
}
use todero_protocol_native.Core.Api.{on_path_event}
use todero_protocol_native.Core.Handlers.{
  on_valid_peer_datagram, schedule_server_timers, schedule_client_timers, handle_data,
  flush_ordered, flush_loop,
}
use todero_protocol_native.Core.Flush.{delivered}
use todero_protocol_native.Core.Timers.{on_timer, client_probe_timer, probe, disconnect_timer}
use todero_protocol_native.Core.Codec.{encode_frame, find_msr_signal_tlv, find_signal}
use todero_protocol_native.Core.Runs
use todero_protocol_native.Core.Runs.{run}
use todero_protocol_native.Store.{
  InMemorySessionStore, shard_at, set_shard, effective_entry, upsert, upsert_shard, load,
  load_shard, next_entry,
}
use todero_protocol_native.Examples.Maps.{order}
use todero_protocol_native.Store.Memory.{in_memory}
use todero_protocol_native.Traversal.Candidates.{v4, same_text}
use todero_protocol_native.Runtime.Timers.{
  Timers, due_timers, due_entries, push_entry, take_off, remove_first,
}
use todero_protocol_native.Runtime.Due.{pending, due_timers-take}
use todero_protocol_native.Runtime.Client
use todero_protocol_native.Runtime.Client.{ClientRuntime, ClientRuntimeError}
use todero_protocol_native.Runtime.Client.Delivery.{
  ClientCall, client_begin_handshake, client_datagram, client_poll_timers, run_client,
  perform_client, run_client-drives, run_client-delivered,
}
use todero_protocol_native.Runtime.Client.Discovery.{
  Json, load_remote_candidates_from_discovery, load_remote_candidates_lem, Loads,
}
use todero_protocol_native.Runtime.Server
use todero_protocol_native.Runtime.Server.{ServerRuntime, Host}
use todero_protocol_native.Runtime.Server.Calls
use todero_protocol_native.Runtime.Server.Sessions.{
  ensure_session_loaded, open_session, apply_core_output, observed, settle_session, save_session,
  with_paths, observe_core_events, ingest_timers, runtime_events,
}
use todero_protocol_native.Runtime.Server.Metrics
use todero_protocol_native.Runtime.Server.Metrics.{
  observe_datagrams, observe_datagram, observe_frame, update_peak_sessions_metric,
}
use todero_protocol_native.Runtime.Server.Isolation.{Isolates}
use todero_protocol_native.Runtime.Server.Effects.{on_datagram-Isolates}
use todero_protocol_native.Runtime.Server.Saved.{Saved}
use todero_protocol_native.Runtime.Server.Answered.{on_datagram-Saved}
use todero_protocol_native.Examples.{byte_lists}

abbrev two_deadlines : Timers TimerId
two_deadlines =
    (10, TimerId.server_msr ∷ TimerId.disconnect ∷ [])
    ∷ (20, TimerId.client_probe ∷ [])
    ∷ (99, TimerId.client_probe ∷ [])
    ∷ []

due_timers-take_example : due_timers 50 2 two_deadlines [] ≡ take 2 (pending 50 two_deadlines)
due_timers-take_example = due_timers-take 50 2 two_deadlines

abbrev hello : List ℕ
hello = 3 ∷ 1 ∷ 0 ∷ 0 ∷ 0 ∷ 0 ∷ 0 ∷ 0 ∷ 0 ∷ 0 ∷ 7 ∷ 0 ∷ 0 ∷ 0 ∷ 0 ∷ []

abbrev server_hello : List ℕ
server_hello = 3 ∷ 2 ∷ 0 ∷ 0 ∷ 0 ∷ 0 ∷ 0 ∷ 0 ∷ 0 ∷ 0 ∷ 7 ∷ 0 ∷ 0 ∷ 0 ∷ 0 ∷ []

-- A message `id`, a single byte.
abbrev message : ℕ → List ℕ
message id =
    3 ∷ 18 ∷ 0 ∷ 0 ∷ 0 ∷ 0 ∷ 0 ∷ 0 ∷ 0 ∷ 0 ∷ 7 ∷ 0 ∷ 9 ∷ 0 ∷ 0 ∷ 0 ∷ 0 ∷ 0 ∷ 0 ∷ 0 ∷ 0 ∷ 0 ∷ id ∷ 42
    ∷ []

abbrev client_calls : List ClientCall
client_calls =
    client_begin_handshake
    ∷ client_datagram 15 1 server_hello
    ∷ client_datagram 20 1 (message 2)
    ∷ client_poll_timers 30 5
    ∷ client_datagram 40 1 (message 1)
    ∷ []

abbrev client : ClientRuntime
client = Client.new 7 default_config

run_client-drives_example :
    (core_calls : List Runs.Call) × ((run_client client_calls client).0.core
      ≡ (run core_calls client.core).0)
    × ((run_client client_calls client).1 ≡ (run core_calls client.core).1)
run_client-drives_example = run_client-drives client_calls client

-- Message 2 comes first, and after a poll message 1: the first one delivered is message 1.
run_client-delivered_example : 1 ≡ (0 + 1) % 2 ^ 64
unfolding run_client perform_client Client.begin_handshake Client.on_datagram Client.poll_timers
    Client.applied Client.apply_core_output Client.run_due Client.new Client.observe_datagrams
    Client.observe_datagram Client.observe_core_events Client.observe_core_event
    Client.ingest_timers push_entry due_timers due_entries take_off remove_first
    Machine.begin_handshake delivered on_datagram on_frame receive on_valid_peer_datagram dispatch
    piggyback handle_data flush_ordered flush_loop get insert remove contains insert_set
    encode_frame encode encode_tlvs validate_frame to_u8 decode decode_tlvs decode_tlvs_loop
    decode_tlv from_u8 from_be_bytes from_be_loop to_be_bytes find_msr_signal_tlv find_signal
    client_on_server_hello schedule_client_timers on_timer client_probe_timer probe disconnect_timer
run_client-delivered_example = run_client-delivered client_calls 7 default_config 0 1 refl

-- A store without entries.
abbrev server : ServerRuntime InMemorySessionStore
server = Server.new default_config (record { shards = [] ∷ [] ∷ [] })

abbrev host : Host
host = record {
  load_us = 12;
  upsert_us = 30;
  encode_base64 = λ bytes. "Kg==";
  path_name = λ path. "path:4";
}

abbrev hello_frame : WireFrame
hello_frame = record {
  version = 3;
  message_type = MessageType.client_hello;
  flags = 0;
  cid = 7;
  payload = [];
  tlvs = [];
}

on_datagram-Isolates_example :
    Isolates
      (in_memory order)
      7
      50
      server
      (Calls.on_datagram (in_memory order) host 50 4 hello server).0
unfolding decode decode_tlvs decode_tlvs_loop from_u8 from_be_bytes from_be_loop
on_datagram-Isolates_example =
    on_datagram-Isolates (in_memory order) host 50 4 hello hello_frame server refl

on_datagram-Saved_example :
    Saved (in_memory order) host 7 50 (Calls.on_datagram (in_memory order) host 50 4 hello server).0
unfolding in_memory decode decode_tlvs decode_tlvs_loop from_u8 from_be_bytes from_be_loop
    Server.new Server.new_with_nat_policy Calls.on_datagram Calls.on_frame Calls.on_session
    Calls.drive ensure_session_loaded open_session apply_core_output observed settle_session
    save_session with_paths update_peak_sessions_metric observe_core_events
    Metrics.observe_core_event ingest_timers push_entry observe_datagrams observe_datagram
    observe_frame runtime_events get insert remove on_path_event on_datagram on_frame receive
    on_valid_peer_datagram dispatch piggyback server_on_client_hello schedule_server_timers
    encode_frame encode encode_tlvs validate_frame to_u8 to_be_bytes find_msr_signal_tlv find_signal
    load load_shard effective_entry upsert upsert_shard next_entry shard_at set_shard
on_datagram-Saved_example =
    on_datagram-Saved (in_memory order) host 50 4 hello hello_frame server (omega arith) refl refl

-- The JSON values that the loader looks at: a document with candidates, and their fields.
data Value : Type 0 where
  document list : List (String × ℕ) → Value
  candidate : String → ℕ → Value
  text : String → Value
  number : ℕ → Value

abbrev field : String → Value → Option Value
field name (document cs) = if same_text name "candidates" then some (list cs) else none
field name (candidate address port) =
    if same_text name "address"
    then some (text address)
    else if same_text name "port"
    then some (number port)
    else none
field name other = none

abbrev elements : Value → Option (List Value)
elements (list cs) = some (map (λ c. candidate c.0 c.1) cs)
elements other = none

abbrev as_text : Value → Option String
as_text (text t) = some t
as_text other = none

abbrev as_number : Value → Option ℕ
as_number (number n) = some n
as_number other = none

abbrev json : Json
json = record {
  Value = Value;
  get_field = field;
  as_array = elements;
  as_str = as_text;
  as_u64 = as_number;
  parse_address = λ t. if same_text t "10.0.0.1" then some (v4 (10 ∷ 0 ∷ 0 ∷ 1 ∷ [])) else none;
}

abbrev discovery : Value
discovery = document (("10.0.0.1", 4000) ∷ ("10.0.0.1", 65616) ∷ [])

load_remote_candidates_example :
    Loads json discovery client (load_remote_candidates_from_discovery json discovery client)
load_remote_candidates_example = load_remote_candidates_lem json discovery client
