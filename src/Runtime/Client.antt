-- ===== src/Runtime/Client.antt =====
-- The client runtime of v3-client-runtime/src/lib.rs. A method takes the runtime and gives the runtime after
-- it and its result; an error keeps the changes that were made before it.
use todero_protocol_native.Base.{
  ℕ, Bool, true, false, List, [], ◌∷◌, ◌++◌, map, Result, ok, err, if◌then◌else◌, is_empty,
}
use todero_protocol_native.Base.Words.{saturating_add_u64}
use todero_protocol_native.Base.BTreeMap.{get}
use todero_protocol_native.Wire.Buffer.{Buf}
use todero_protocol_native.Wire.{WireFrame, MessageType, decode}
use todero_protocol_native.Core.Types.{
  Role, TimerId, TimerAction, schedule, TimerProposal, PathEvent, path_changed, OutboundDatagram,
  Event, CoreOutput, CoreConfig, CoreMachine, CoreError, new as core_new,
}
use todero_protocol_native.Core.Machine.{
  begin_handshake as core_begin_handshake, on_datagram as core_on_datagram,
}
use todero_protocol_native.Core.Timers.{on_timer as core_on_timer}
use todero_protocol_native.Core.Api.{
  on_path_event as core_on_path_event, on_api_send, on_api_close, on_api_propose_timers,
}
use todero_protocol_native.Traversal.Candidates.{IceCandidate, RelayPolicy}
use todero_protocol_native.Traversal.Consent.{ConsentAction}
use todero_protocol_native.Traversal.Turn.{TurnAction}
use todero_protocol_native.Runtime.Timers.{
  Timers, same_timer, or_default, push_entry, due_timers, take_off,
}
pub mod Discovery
pub mod Delivery

pub data ClientRuntimeEvent : Type 0 where
  core : Event → ClientRuntimeEvent
  -- `local_index`, `remote_index` and `path_id`
  nat_pair_nominated : ℕ → ℕ → ℕ → ClientRuntimeEvent
  turn_action : TurnAction → ClientRuntimeEvent
  consent_action : ConsentAction → ClientRuntimeEvent

pub record ClientRuntimeOutput : Type 0 where
  pub outbound_datagrams : List OutboundDatagram
  pub events : List ClientRuntimeEvent

pub record ClientRuntimeMetrics : Type 0 where
  pub handshake_started : ℕ
  pub handshake_established : ℕ
  pub reactivation_probe_sent : ℕ
  pub reactivated : ℕ
  pub disconnected : ℕ
  pub msr_sent : ℕ
  pub nat_pair_nominated : ℕ
  pub turn_actions : ℕ
  pub consent_actions : ℕ

pub record ClientRuntime : Type 0 where
  pub core : CoreMachine
  pub timers : Timers TimerId
  pub local_candidates : List IceCandidate
  pub remote_candidates : List IceCandidate
  pub metrics : ClientRuntimeMetrics

pub data ClientRuntimeError : Type 0 where
  core_error : CoreError → ClientRuntimeError
  invalid_candidate_payload : ClientRuntimeError

abbrev pub no_metrics : ClientRuntimeMetrics
no_metrics = record {
  handshake_started = 0;
  handshake_established = 0;
  reactivation_probe_sent = 0;
  reactivated = 0;
  disconnected = 0;
  msr_sent = 0;
  nat_pair_nominated = 0;
  turn_actions = 0;
  consent_actions = 0;
}

unfoldable pub new : ℕ → CoreConfig → ClientRuntime
new cid cfg = record {
  core = core_new Role.client cid cfg;
  timers = [];
  local_candidates = [];
  remote_candidates = [];
  metrics = no_metrics;
}

abbrev pub empty_output : ClientRuntimeOutput
empty_output = record { outbound_datagrams = []; events = [] }

unfoldable pub observe_core_event : Event → ClientRuntimeMetrics → ClientRuntimeMetrics
observe_core_event Event.handshake_started m = record m {
  handshake_started = saturating_add_u64 m.handshake_started 1;
}
observe_core_event Event.handshake_established m = record m {
  handshake_established = saturating_add_u64 m.handshake_established 1;
}
observe_core_event Event.reactivation_probe_sent m = record m {
  reactivation_probe_sent = saturating_add_u64 m.reactivation_probe_sent 1;
}
observe_core_event Event.reactivated m = record m {
  reactivated = saturating_add_u64 m.reactivated 1;
}
observe_core_event Event.disconnected m = record m {
  disconnected = saturating_add_u64 m.disconnected 1;
}
observe_core_event other m = m

unfoldable pub observe_core_events : List Event → ClientRuntimeMetrics → ClientRuntimeMetrics
observe_core_events [] m = m
observe_core_events (event ∷ events) m = observe_core_events events (observe_core_event event m)

abbrev pub contains : TimerId → List TimerId → Bool
contains id [] = false
contains id (x ∷ xs) = if same_timer x id then true else contains id xs

-- One entry per timer and deadline.
unfoldable pub ingest_timers : List TimerAction → Timers TimerId → Timers TimerId
ingest_timers [] timers = timers
ingest_timers (schedule id deadline_ms ∷ actions) timers = ingest_timers actions (
    if contains id (or_default (get deadline_ms timers))
    then timers
    else push_entry deadline_ms id timers)

abbrev pub is_msr : MessageType → Bool
is_msr MessageType.msr = true
is_msr other = false

abbrev pub Answer : Type 0
Answer = ClientRuntime × Result ClientRuntimeError ClientRuntimeOutput

module _ ⦃buf : Buf⦄ where
  unfoldable pub observe_datagram : OutboundDatagram → ClientRuntimeMetrics → ClientRuntimeMetrics
  observe_datagram d m = elim (decode d.bytes) [
    | err e ↦ m
    | ok frame ↦
        if is_msr frame.message_type
        then record m { msr_sent = saturating_add_u64 m.msr_sent 1 }
        else m
  ]

  unfoldable pub observe_datagrams :
      List OutboundDatagram → ClientRuntimeMetrics → ClientRuntimeMetrics
  observe_datagrams [] m = m
  observe_datagrams (d ∷ ds) m = observe_datagrams ds (observe_datagram d m)

  unfoldable pub apply_core_output :
      CoreOutput → ClientRuntime → ClientRuntime × ClientRuntimeOutput
  apply_core_output out self = (
    record self {
      metrics =
          observe_core_events out.events (observe_datagrams out.outbound_datagrams self.metrics);
      timers = ingest_timers out.timer_actions self.timers;
    },
    record { outbound_datagrams = out.outbound_datagrams; events = map core out.events },
  )

  -- `let core_out = self.core.…?; Ok(self.apply_core_output(core_out))`
  unfoldable pub applied : ClientRuntime → CoreMachine × Result CoreError CoreOutput → Answer
  applied self (machine, err e) = (record self { core = machine }, err (core_error e))
  applied self (machine, ok out) =
      let r = apply_core_output out (record self { core = machine }) in (r.0, ok r.1)

  unfoldable pub begin_handshake : ClientRuntime → Answer
  begin_handshake self = applied self (core_begin_handshake self.core)

  unfoldable pub on_datagram : ℕ → ℕ → List ℕ → ClientRuntime → Answer
  on_datagram now_ms src_path_id bytes self =
      applied self (core_on_datagram now_ms src_path_id bytes self.core)

  unfoldable pub send_message : List ℕ → ClientRuntime → Answer
  send_message payload self = applied self (on_api_send payload self.core)

  unfoldable pub close_session : ClientRuntime → Answer
  close_session self = applied self (on_api_close self.core)

  unfoldable pub propose_timers : ℕ → TimerProposal → ClientRuntime → Answer
  propose_timers now_ms proposal self =
      applied self (on_api_propose_timers now_ms proposal self.core)

  unfoldable pub on_path_changed : ℕ → ClientRuntime → Answer
  on_path_changed path_id self = applied self (core_on_path_event (path_changed path_id) self.core)

  -- What a due timer makes, with the output of those before it.
  abbrev pub joined : ClientRuntimeOutput → ClientRuntimeOutput → ClientRuntimeOutput
  joined a b = record {
    outbound_datagrams = a.outbound_datagrams ++ b.outbound_datagrams;
    events = a.events ++ b.events;
  }

  -- The loop over the timers that are due: an error ends it, and the output so far is dropped.
  unfoldable pub run_due : ℕ → List (ℕ × TimerId) → ClientRuntimeOutput → ClientRuntime → Answer
  run_due now_ms [] output self = (self, ok output)
  run_due now_ms ((deadline, id) ∷ due) output self =
      let taken = record self { timers = take_off same_timer deadline id self.timers } in
      let r = applied taken (core_on_timer now_ms id taken.core) in
      elim r.1 [
        | err e ↦ (r.0, err e)
        | ok partial ↦ run_due now_ms due (joined output partial) r.0
      ]

  unfoldable pub poll_timers : ℕ → ℕ → ClientRuntime → Answer
  poll_timers now_ms limit self =
      run_due now_ms (due_timers now_ms limit self.timers []) empty_output self

unfoldable pub set_local_candidates : List IceCandidate → ClientRuntime → ClientRuntime
set_local_candidates candidates self = record self { local_candidates = candidates }

unfoldable pub set_remote_candidates : List IceCandidate → ClientRuntime → ClientRuntime
set_remote_candidates candidates self = record self { remote_candidates = candidates }

-- The three calls that the code keeps for compatibility only.
unfoldable pub set_relay_policy : RelayPolicy → ClientRuntime → ClientRuntime
set_relay_policy policy self = self

unfoldable pub run_ice_nomination : ClientRuntime → Answer
run_ice_nomination self = (self, ok empty_output)

unfoldable pub on_nat_tick : ℕ → ClientRuntime → ClientRuntime × ClientRuntimeOutput
on_nat_tick now_ms self = (self, empty_output)
