-- ===== src/Runtime/Server/Calls.antt =====
-- The calls of the server runtime of v3-server-runtime/src/lib.rs.
use Prim.Native.String.{String}
use todero_protocol_native.Base.{
  ℕ, Bool, ◌&&◌, List, [], ◌∷◌, ◌++◌, Option, none, some, Result, ok, err, if◌then◌else◌, ◌==◌,
}
use todero_protocol_native.Base.BTreeMap.{get, insert}
use todero_protocol_native.Wire.Buffer.{Buf}
use todero_protocol_native.Wire.{WireFrame, decode}
use todero_protocol_native.Core.Types.{TimerId, CoreMachine, CoreOutput, CoreError}
use todero_protocol_native.Core.Machine.{on_datagram as core_on_datagram}
use todero_protocol_native.Core.Timers.{on_timer as core_on_timer}
use todero_protocol_native.Core.Api.{on_api_send}
use todero_protocol_native.Traversal.Candidates.{IceCandidate}
use todero_protocol_native.Store.Contract.{SessionStore}
use todero_protocol_native.Runtime.Timers.{same_timer, due_timers, take_off}
use todero_protocol_native.Runtime.Server.{
  RuntimeEvent, parse_error, vhost_path_bound, ServerRuntimeOutput, empty_output, SessionRuntime,
  ServerRuntime, ServerRuntimeError, core_error, Host,
}
use todero_protocol_native.Runtime.Server.Metrics.{count_up}
use todero_protocol_native.Runtime.Server.Sessions.{ensure_session_loaded, apply_core_output}

abbrev pub same_entry : ℕ × TimerId → ℕ × TimerId → Bool
same_entry (a, s) (b, t) = a == b && same_timer s t

-- The events that tell where a session's virtual host is reached.
abbrev pub bound_events : ℕ → ℕ → Option String → Option ℕ → List RuntimeEvent
bound_events cid src_path_id none bound = []
bound_events cid src_path_id (some vhost) none = []
bound_events cid src_path_id (some vhost) (some bound) =
    if bound == src_path_id then vhost_path_bound cid vhost src_path_id ∷ [] else []

abbrev pub put_before :
    List RuntimeEvent
    → Result ServerRuntimeError ServerRuntimeOutput
    → Result ServerRuntimeError ServerRuntimeOutput
put_before events (err e) = err e
put_before events (ok out) = ok (record out { events = events ++ out.events })

abbrev pub joined : ServerRuntimeOutput → ServerRuntimeOutput → ServerRuntimeOutput
joined a b = record {
  outbound_datagrams = a.outbound_datagrams ++ b.outbound_datagrams;
  events = a.events ++ b.events;
}

module _ {S : Type 0} (store : SessionStore S) (host : Host) ⦃buf : Buf⦄ where
  -- A call of a session's machine, and what the runtime makes of its output.
  unfoldable pub drive :
      ℕ
      → ℕ
      → ℕ
      → (CoreMachine → CoreMachine × Result CoreError CoreOutput)
      → SessionRuntime
      → ServerRuntime S
      → ServerRuntime S × Result ServerRuntimeError ServerRuntimeOutput
  drive cid src_path_id now_ms step session self =
      let r = step session.core in
      let stepped = record self {
        sessions = insert cid (record session { core = r.0 }) self.sessions;
      } in
      elim r.1 [
        | err e ↦ (stepped, err (core_error e))
        | ok out ↦ apply_core_output store host cid src_path_id now_ms out stepped
      ]

  -- `on_datagram` of a frame whose session is in memory. The code's `expect` has no other case.
  unfoldable pub on_session :
      ℕ
      → ℕ
      → ℕ
      → List ℕ
      → Option SessionRuntime
      → ServerRuntime S
      → ServerRuntime S × Result ServerRuntimeError ServerRuntimeOutput
  on_session cid now_ms src_path_id bytes none self = (self, ok empty_output)
  on_session cid now_ms src_path_id bytes (some session) self =
      let pre_events = bound_events cid src_path_id session.bound_vhost session.selected_path_id in
      let r =
        drive cid src_path_id now_ms (core_on_datagram now_ms src_path_id bytes) session self in
      (r.0, put_before pre_events r.1)

  unfoldable pub on_frame :
      ℕ
      → ℕ
      → List ℕ
      → WireFrame
      → ServerRuntime S
      → ServerRuntime S × Result ServerRuntimeError ServerRuntimeOutput
  on_frame now_ms src_path_id bytes frame self =
      let loaded = ensure_session_loaded store host frame.cid src_path_id now_ms self in
      elim loaded.1 [
        | err e ↦ (loaded.0, err e)
        | ok _ ↦
            on_session frame.cid now_ms src_path_id bytes (get frame.cid loaded.0.sessions) loaded.0
      ]

  unfoldable pub on_datagram :
      ℕ
      → ℕ
      → List ℕ
      → ServerRuntime S
      → ServerRuntime S × Result ServerRuntimeError ServerRuntimeOutput
  on_datagram now_ms src_path_id bytes self = elim (decode bytes) [
    | err _ ↦ (
      record self {
        metrics = record (self.metrics) { parse_errors = count_up self.metrics.parse_errors };
      },
      ok (record { outbound_datagrams = []; events = parse_error ∷ [] }),
    )
    | ok frame ↦ on_frame now_ms src_path_id bytes frame self
  ]

  -- A due timer, whose session may be gone.
  unfoldable pub fire :
      ℕ
      → ℕ
      → TimerId
      → Option SessionRuntime
      → ServerRuntime S
      → ServerRuntime S × Result ServerRuntimeError ServerRuntimeOutput
  fire now_ms cid timer_id none self = (self, ok empty_output)
  fire now_ms cid timer_id (some session) self =
      drive cid 0 now_ms (core_on_timer now_ms timer_id) session self

  unfoldable pub run_due :
      ℕ
      → List (ℕ × (ℕ × TimerId))
      → ServerRuntimeOutput
      → ServerRuntime S
      → ServerRuntime S × Result ServerRuntimeError ServerRuntimeOutput
  run_due now_ms [] output self = (self, ok output)
  run_due now_ms ((deadline, (cid, timer_id)) ∷ due) output self =
      let taken = record self {
        timers = take_off same_entry deadline (cid, timer_id) self.timers;
      } in
      let r = fire now_ms cid timer_id (get cid taken.sessions) taken in
      elim r.1 [
        | err e ↦ (r.0, err e)
        | ok partial ↦ run_due now_ms due (joined output partial) r.0
      ]

  unfoldable pub poll_timers :
      ℕ → ℕ → ServerRuntime S → ServerRuntime S × Result ServerRuntimeError ServerRuntimeOutput
  poll_timers now_ms limit self =
      run_due now_ms (due_timers now_ms limit self.timers []) empty_output self

  unfoldable pub send_to :
      ℕ
      → List ℕ
      → ℕ
      → Option SessionRuntime
      → ServerRuntime S
      → ServerRuntime S × Result ServerRuntimeError ServerRuntimeOutput
  send_to cid payload now_ms none self = (self, ok empty_output)
  send_to cid payload now_ms (some session) self =
      drive cid 0 now_ms (on_api_send payload) session self

  unfoldable pub send_message :
      ℕ
      → List ℕ
      → ℕ
      → ServerRuntime S
      → ServerRuntime S × Result ServerRuntimeError ServerRuntimeOutput
  send_message cid payload now_ms self = send_to cid payload now_ms (get cid self.sessions) self

  -- The two calls that the code keeps for compatibility only.
  unfoldable pub on_nat_tick : ℕ → ServerRuntime S → ServerRuntime S × ServerRuntimeOutput
  on_nat_tick now_ms self = (self, empty_output)

  unfoldable pub on_ice_candidates :
      ℕ
      → String
      → List IceCandidate
      → List IceCandidate
      → ServerRuntime S
      → ServerRuntime S × Result ServerRuntimeError ServerRuntimeOutput
  on_ice_candidates cid vhost local remote self = (self, ok empty_output)
