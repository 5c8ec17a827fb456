-- ===== src/Runtime/Server/Sessions.antt =====
-- How the server runtime of v3-server-runtime/src/lib.rs loads a session, applies what its machine gives, and
-- saves it. The store is any implementation of the trait, the argument `store`.
use Prim.Native.String.{String}
use todero_protocol_native.Base.{
  ℕ, Bool, not, List, [], ◌∷◌, ◌++◌, Option, none, some, Result, ok, err, if◌then◌else◌, ◌==◌, ◌>>◌,
}
use todero_protocol_native.Base.Words.{saturating_add_u64}
use todero_protocol_native.Base.BTreeMap.{get, insert, remove}
use todero_protocol_native.Wire.Buffer.{Buf}
use todero_protocol_native.Core.Types.{
  Role, is_lost, TimerId, TimerAction, schedule, path_changed, OutboundDatagram, Event, CoreOutput,
  CoreConfig, new as core_new,
}
use todero_protocol_native.Core.Api.{on_path_event as core_on_path_event}
use todero_protocol_native.Store.{SessionRecord, VersionedRecord, StoreError}
use todero_protocol_native.Store.Contract.{SessionStore}
use todero_protocol_native.Runtime.Timers.{Timers, push_entry}
use todero_protocol_native.Runtime.Server.{
  RuntimeEvent, core_event, message_received, ServerRuntimeOutput, SessionRuntime, ServerRuntime,
  ServerRuntimeMetrics, ServerRuntimeError, core_error, store_error, Host,
}
use todero_protocol_native.Runtime.Server.Metrics.{
  count_up, observe_core_event, observe_datagrams, update_peak_sessions_metric,
}

abbrev pub is_err {ℓ} : {E : Type 0} {A : Type ℓ} → Result E A → Bool
is_err (err e) = Bool.true
is_err (ok a) = Bool.false

abbrev pub count_if : Bool → ℕ → ℕ
count_if b n = if b then count_up n else n

abbrev pub map_store_error {ℓ} : {A : Type ℓ} → Result StoreError A → Result ServerRuntimeError A
map_store_error (err e) = err (store_error e)
map_store_error (ok a) = ok a

unfoldable pub ingest_timers : ℕ → List TimerAction → Timers (ℕ × TimerId) → Timers (ℕ × TimerId)
ingest_timers cid [] timers = timers
ingest_timers cid (schedule id deadline_ms ∷ actions) timers =
    ingest_timers cid actions (push_entry deadline_ms (cid, id) timers)

module _ (host : Host) where
  abbrev pub received : ℕ → Event → List RuntimeEvent
  received cid (Event.message_received msg_id payload) =
      message_received cid msg_id (host.encode_base64 payload) ∷ []
  received cid other = []

  -- The first loop of `apply_core_output`: its events, and the metrics.
  unfoldable pub runtime_events : ℕ → List Event → List RuntimeEvent
  runtime_events cid [] = []
  runtime_events cid (evt ∷ evts) =
      core_event cid evt ∷ (received cid evt ++ runtime_events cid evts)

unfoldable pub observe_core_events : List Event → ServerRuntimeMetrics → ServerRuntimeMetrics
observe_core_events [] m = m
observe_core_events (evt ∷ evts) m = observe_core_events evts (observe_core_event evt m)

-- A datagram without a path goes to where the call came from.
unfoldable pub with_paths : ℕ → List OutboundDatagram → List OutboundDatagram
with_paths src_path_id [] = []
with_paths src_path_id (d ∷ ds) =
    record { path_id = if d.path_id == 0 then src_path_id else d.path_id; bytes = d.bytes }
    ∷ with_paths src_path_id ds

module _ {S : Type 0} (store : SessionStore S) (host : Host) where
  -- The machine's configuration and the peer of a session, as loaded or new.
  abbrev pub session_config : ServerRuntime S → ℕ → Option VersionedRecord → CoreConfig × String
  session_config self src_path_id none = (self.cfg, host.path_name src_path_id)
  session_config self src_path_id (some versioned) = (
    record {
      msr_interval_ms = versioned.record_.negotiated_msr_interval_ms;
      miss_window_count = self.cfg.miss_window_count;
      disconnect_window_ms = versioned.record_.disconnect_window_ms;
    },
    versioned.record_.peer_id,
  )

  -- A session that is not in memory, by what the store has answered.
  unfoldable pub open_session :
      ℕ
      → ℕ
      → Result StoreError (Option VersionedRecord)
      → ServerRuntime S
      → ServerRuntime S × Result ServerRuntimeError (Unit {0})
  open_session cid src_path_id (err e) self = (
    record self {
      metrics = record (self.metrics) {
        store_load_failures = count_up self.metrics.store_load_failures;
      };
    },
    err (store_error e),
  )
  open_session cid src_path_id (ok loaded) self =
      let config = session_config self src_path_id loaded in
      let r = core_on_path_event (path_changed src_path_id) (core_new Role.server cid config.0) in
      elim r.1 [
        | err e ↦ (self, err (core_error e))
        | ok out ↦ (
          update_peak_sessions_metric (record self {
            sessions =
                insert cid
                  (record {
                    core = r.0;
                    peer_id = config.1;
                    bound_vhost = none;
                    selected_path_id = none;
                    sent_data_ids = [];
                  })
                  self.sessions;
          }),
          ok tt,
        )
      ]

  unfoldable pub ensure_session_loaded :
      ℕ → ℕ → ℕ → ServerRuntime S → ServerRuntime S × Result ServerRuntimeError (Unit {0})
  ensure_session_loaded cid src_path_id now_ms self = elim (get cid self.sessions) [
    | some session ↦ (self, ok tt)
    | none ↦
        let r = store.load cid now_ms self.store in
        open_session cid src_path_id r.0 (record self {
          store = r.1;
          metrics = record (self.metrics) {
            store_load_calls = count_up self.metrics.store_load_calls;
            store_load_latency_us_total =
                saturating_add_u64 self.metrics.store_load_latency_us_total host.load_us;
          };
        })
  ]

  -- A lost session is deleted from the store and from memory.
  unfoldable pub drop_session :
      ℕ → ServerRuntime S → ServerRuntime S × Result ServerRuntimeError (Unit {0})
  drop_session cid self =
      let r = store.delete cid self.store in
      let failed = is_err r.0 in
      let m = record (self.metrics) {
        store_delete_calls = count_up self.metrics.store_delete_calls;
        store_delete_failures = count_if failed self.metrics.store_delete_failures;
        disconnected = count_if (not failed) self.metrics.disconnected;
        disconnect_reason_unknown = count_if (not failed) self.metrics.disconnect_reason_unknown;
      } in
      (
        record self { store = r.1; sessions = remove cid self.sessions; metrics = m },
        map_store_error r.0,
      )

  abbrev pub saved_record : ℕ → SessionRuntime → ServerRuntime S → SessionRecord
  saved_record cid session self = record {
    cid = cid;
    peer_id = session.peer_id;
    negotiated_msr_interval_ms = self.cfg.msr_interval_ms;
    disconnect_window_ms = self.cfg.disconnect_window_ms;
    last_ordered_rx = session.core.last_ordered_rx;
    last_ordered_tx = 0;
  }

  unfoldable pub save_session :
      ℕ
      → ℕ
      → SessionRuntime
      → ServerRuntime S
      → ServerRuntime S × Result ServerRuntimeError (Unit {0})
  save_session cid now_ms session self =
      let r =
        store.upsert cid (saved_record cid session self) self.cfg.disconnect_window_ms now_ms
          self.store in
      let m = record (self.metrics) {
        store_upsert_calls = count_up self.metrics.store_upsert_calls;
        store_upsert_latency_us_total =
            saturating_add_u64 self.metrics.store_upsert_latency_us_total host.upsert_us;
        store_upsert_failures = count_if (is_err r.0) self.metrics.store_upsert_failures;
      } in
      (
        record self { store = r.1; metrics = m },
        map_store_error (elim r.0 [ err e ↦ err e | ok v ↦ ok tt ]),
      )

  -- The end of `apply_core_output`, on the session that is in memory then.
  unfoldable pub settle_session :
      ℕ
      → ℕ
      → Option SessionRuntime
      → ServerRuntime S
      → ServerRuntime S × Result ServerRuntimeError (Unit {0})
  settle_session cid now_ms none self = (self, ok tt)
  settle_session cid now_ms (some session) self =
      if is_lost session.core.state
      then drop_session cid self
      else save_session cid now_ms session self

  module _ ⦃buf : Buf⦄ where
    unfoldable pub observed : ℕ → ℕ → CoreOutput → ServerRuntime S → ServerRuntime S
    observed cid src_path_id out self =
        observe_datagrams cid (with_paths src_path_id out.outbound_datagrams) (record self {
          metrics = observe_core_events out.events self.metrics;
          timers = ingest_timers cid out.timer_actions self.timers;
        })

    unfoldable pub apply_core_output :
        ℕ
        → ℕ
        → ℕ
        → CoreOutput
        → ServerRuntime S
        → ServerRuntime S × Result ServerRuntimeError ServerRuntimeOutput
    apply_core_output cid src_path_id now_ms out self =
        let seen = observed cid src_path_id out self in
        let r = settle_session cid now_ms (get cid seen.sessions) seen in
        (
          r.0,
          r.1
              >> ok (record {
                outbound_datagrams = with_paths src_path_id out.outbound_datagrams;
                events = runtime_events host cid out.events;
              }),
        )
