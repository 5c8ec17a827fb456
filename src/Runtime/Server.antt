-- ===== src/Runtime/Server.antt =====
-- The server runtime of v3-server-runtime/src/lib.rs: a session machine per connection id, their timers, the
-- metrics, and a store that each session is saved in.
use Prim.Native.String.{String}
use todero_protocol_native.Base.{
  ℕ, Bool, true, false, List, [], ◌∷◌, Option, none, some, if◌then◌else◌, ltb, length,
}
use todero_protocol_native.Base.BTreeMap.{BTreeMap, BTreeSet}
use todero_protocol_native.Wire.{MessageType, WireError}
use todero_protocol_native.Core.Types.{
  TimerId, OutboundDatagram, Event, CoreConfig, CoreMachine, CoreError,
}
use todero_protocol_native.Traversal.Candidates.{RelayPolicy, prefer_direct}
use todero_protocol_native.Traversal.Turn.{TurnAction}
use todero_protocol_native.Store.{StoreError}
use todero_protocol_native.Runtime.Timers.{Timers}
pub mod Metrics
pub mod Sessions
pub mod Calls
pub mod Effects
pub mod Saved
pub mod Answered
pub mod Isolation

pub data RuntimeEvent : Type 0 where
  parse_error : RuntimeEvent
  -- The first argument is `cid`.
  core_event : ℕ → Event → RuntimeEvent
  nat_pair_nominated : ℕ → ℕ → ℕ → RuntimeEvent
  turn_action : ℕ → TurnAction → RuntimeEvent
  vhost_path_bound : ℕ → String → ℕ → RuntimeEvent
  -- `cid`, `msg_id` and `payload_b64`
  message_received : ℕ → ℕ → String → RuntimeEvent

pub record ServerRuntimeOutput : Type 0 where
  pub outbound_datagrams : List OutboundDatagram
  pub events : List RuntimeEvent

abbrev pub empty_output : ServerRuntimeOutput
empty_output = record { outbound_datagrams = []; events = [] }

pub record SessionRuntime : Type 0 where
  pub core : CoreMachine
  pub peer_id : String
  pub bound_vhost : Option String
  pub selected_path_id : Option ℕ
  pub sent_data_ids : BTreeSet

pub record ServerRuntimeMetrics : Type 0 where
  pub parse_errors : ℕ
  pub handshake_started : ℕ
  pub handshake_established : ℕ
  pub reactivated : ℕ
  pub disconnected : ℕ
  pub disconnect_reason_unknown : ℕ
  pub msr_sent : ℕ
  pub msr_probe_sent : ℕ
  pub msr_missed_inferred : ℕ
  pub request_range_sent : ℕ
  pub data_sent : ℕ
  pub data_retransmit_inferred : ℕ
  pub ice_candidate_selected : ℕ
  pub turn_actions : ℕ
  pub turn_retry_actions : ℕ
  pub turn_mark_failed_actions : ℕ
  pub turn_alloc_actions : ℕ
  pub turn_refresh_actions : ℕ
  pub turn_permission_actions : ℕ
  pub turn_channel_bind_actions : ℕ
  pub store_load_calls : ℕ
  pub store_load_failures : ℕ
  pub store_load_latency_us_total : ℕ
  pub store_upsert_calls : ℕ
  pub store_upsert_failures : ℕ
  pub store_upsert_latency_us_total : ℕ
  pub store_delete_calls : ℕ
  pub store_delete_failures : ℕ
  pub peak_sessions : ℕ

-- `S` is the state of the store.
pub record ServerRuntime (S : Type 0) : Type 0 where
  pub cfg : CoreConfig
  pub store : S
  pub sessions : BTreeMap SessionRuntime
  pub timers : Timers (ℕ × TimerId)
  pub relay_policy : RelayPolicy
  pub metrics : ServerRuntimeMetrics

pub data ServerRuntimeError : Type 0 where
  wire_error : WireError → ServerRuntimeError
  core_error : CoreError → ServerRuntimeError
  store_error : StoreError → ServerRuntimeError

-- What std and the crate base64 give: the microseconds that a call of the store has taken, the text of
-- a payload, and `format!("path:{src_path_id}")`.
pub record Host : Type 0 where
  pub load_us : ℕ
  pub upsert_us : ℕ
  pub encode_base64 : List ℕ → String
  pub path_name : ℕ → String

abbrev pub no_metrics : ServerRuntimeMetrics
no_metrics = record {
  parse_errors = 0;
  handshake_started = 0;
  handshake_established = 0;
  reactivated = 0;
  disconnected = 0;
  disconnect_reason_unknown = 0;
  msr_sent = 0;
  msr_probe_sent = 0;
  msr_missed_inferred = 0;
  request_range_sent = 0;
  data_sent = 0;
  data_retransmit_inferred = 0;
  ice_candidate_selected = 0;
  turn_actions = 0;
  turn_retry_actions = 0;
  turn_mark_failed_actions = 0;
  turn_alloc_actions = 0;
  turn_refresh_actions = 0;
  turn_permission_actions = 0;
  turn_channel_bind_actions = 0;
  store_load_calls = 0;
  store_load_failures = 0;
  store_load_latency_us_total = 0;
  store_upsert_calls = 0;
  store_upsert_failures = 0;
  store_upsert_latency_us_total = 0;
  store_delete_calls = 0;
  store_delete_failures = 0;
  peak_sessions = 0;
}

unfoldable pub new_with_nat_policy : {S : Type 0} → CoreConfig → S → RelayPolicy → ServerRuntime S
new_with_nat_policy cfg store relay_policy = record {
  cfg = cfg;
  store = store;
  sessions = [];
  timers = [];
  relay_policy = relay_policy;
  metrics = no_metrics;
}

unfoldable pub new : {S : Type 0} → CoreConfig → S → ServerRuntime S
new cfg store = new_with_nat_policy cfg store prefer_direct

abbrev pub active_sessions : {S : Type 0} → ServerRuntime S → ℕ
active_sessions self = length self.sessions

unfoldable pub set_relay_policy : {S : Type 0} → RelayPolicy → ServerRuntime S → ServerRuntime S
set_relay_policy relay_policy self = record self { relay_policy = relay_policy }
