-- ===== src/Runtime/Server/Effects.antt =====
-- The calls of the server runtime of v3-server-runtime/src/lib.rs keep all sessions but their own.
use todero_protocol_native.Base.{
  ℕ, ◌≡◌, refl, ap, ◌∙◌, List, Option, none, some, Result, ok, err, if-elim, ltb, length,
  Option-cases, Result-cases, inl, inr,
}
use todero_protocol_native.Base.BTreeMap.{get, insert, get-remove}
use todero_protocol_native.Wire.Buffer.{Buf}
use todero_protocol_native.Wire.{decode, WireFrame}
use todero_protocol_native.Core.Types.{is_lost, CoreMachine, CoreOutput, CoreError}
use todero_protocol_native.Core.Machine.{on_datagram as core_on_datagram}
use todero_protocol_native.Core.Api.{on_path_event as core_on_path_event}
use todero_protocol_native.Store.{StoreError, VersionedRecord}
use todero_protocol_native.Store.Shards.{live}
use todero_protocol_native.Store.Versions.{==_false}
use todero_protocol_native.Store.Contract.{SessionStore}
use todero_protocol_native.Runtime.Server.{ServerRuntime, ServerRuntimeError, SessionRuntime, Host}
use todero_protocol_native.Runtime.Server.Metrics.{update_peak_sessions_metric}
use todero_protocol_native.Runtime.Server.Sessions.{
  open_session, ensure_session_loaded, drop_session, save_session, settle_session, observed,
  with_paths, apply_core_output, saved_record,
}
use todero_protocol_native.Runtime.Server.Calls.{drive, on_session, on_frame, on_datagram}
use todero_protocol_native.Runtime.Server.Isolation.{
  Isolates, Isolates-refl, Isolates-trans, same_store, get-insert_other, observe_datagrams-Isolates,
}

module _ {S : Type 0} (store : SessionStore S) (host : Host) where
  peak-Isolates :
      (cid now : ℕ) (self : ServerRuntime S)
      → Isolates store cid now self (update_peak_sessions_metric self)
  unfolding update_peak_sessions_metric
  peak-Isolates cid now self =
      if-elim (Isolates store cid now self) (ltb self.metrics.peak_sessions (length self.sessions))
        (λ _. same_store store cid now self _ refl refl (λ i _. refl))
        (λ _. Isolates-refl store cid now self)

  open_session-Isolates :
      (cid now src : ℕ) (r : Result StoreError (Option VersionedRecord)) (self : ServerRuntime S)
      → Isolates store cid now self (open_session store host cid src r self).0
  unfolding open_session core_on_path_event
  open_session-Isolates cid now src (err e) self =
      same_store store cid now self _ refl refl (λ i _. refl)
  open_session-Isolates cid now src (ok loaded) self =
      Isolates-trans store
        (same_store store cid now self _ refl refl
          (λ i ne. get-insert_other store i cid _ self.sessions ne))
        (peak-Isolates cid now _)

  pub ensure_session_loaded-Isolates :
      (cid now src : ℕ) (self : ServerRuntime S)
      → Isolates store cid now self (ensure_session_loaded store host cid src now self).0
  unfolding ensure_session_loaded
  ensure_session_loaded-Isolates cid now src self = elim (Option-cases (get cid self.sessions)) [
    | inr (session, e) ↦ rw (e, ensure_session_loaded) (Isolates-refl store cid now self)
    | inl e ↦
        rw (e, ensure_session_loaded)
          (Isolates-trans store
            (record {
              sound = λ h. store.load_sound cid now self.store h;
              cfg_kept = refl;
              sessions_kept = λ i _. refl;
              held_kept = λ h i _. store.load_held cid now self.store h i;
            })
            (open_session-Isolates cid now src (store.load cid now self.store).0 _))
  ]

  drop_session-Isolates :
      (cid now : ℕ) (self : ServerRuntime S)
      → Isolates store cid now self (drop_session store host cid self).0
  unfolding drop_session
  drop_session-Isolates cid now self = record {
    sound = λ h. store.delete_sound cid self.store h;
    cfg_kept = refl;
    sessions_kept = λ i ne. get-remove i cid self.sessions ∙ rw (==_false cid i ne);
    held_kept = λ h i ne later _.
        ap (live later) (store.delete_held cid self.store h i ∙ rw (==_false cid i ne));
  }

  save_session-Isolates :
      (cid now : ℕ) (session : SessionRuntime) (self : ServerRuntime S)
      → Isolates store cid now self (save_session store host cid now session self).0
  unfolding save_session
  save_session-Isolates cid now session self =
      let r = saved_record store host cid session self in
      let ttl = self.cfg.disconnect_window_ms in
      record {
        sound = λ h. store.upsert_sound cid r ttl now self.store h;
        cfg_kept = refl;
        sessions_kept = λ i _. refl;
        held_kept = λ h i ne later _.
            ap (live later)
              (store.upsert_held cid r ttl now self.store h i ∙ rw (==_false cid i ne));
      }

  settle_session-Isolates :
      (cid now : ℕ) (o : Option SessionRuntime) (self : ServerRuntime S)
      → Isolates store cid now self (settle_session store host cid now o self).0
  unfolding settle_session
  settle_session-Isolates cid now none self = Isolates-refl store cid now self
  settle_session-Isolates cid now (some session) self =
      if-elim {A = ServerRuntime S × Result ServerRuntimeError (Unit {0})}
        (λ p. Isolates store cid now self p.0) (is_lost session.core.state)
        (λ _. drop_session-Isolates cid now self) (λ _. save_session-Isolates cid now session self)

  module _ ⦃buf : Buf⦄ where
    pub observed-Isolates :
        (cid now src : ℕ) (out : CoreOutput) (self : ServerRuntime S)
        → Isolates store cid now self (observed store host cid src out self)
    unfolding observed
    observed-Isolates cid now src out self =
        Isolates-trans store (same_store store cid now self _ refl refl (λ i _. refl))
          (observe_datagrams-Isolates store cid now (with_paths src out.outbound_datagrams) _)

    apply_core_output-Isolates :
        (cid now src : ℕ) (out : CoreOutput) (self : ServerRuntime S)
        → Isolates store cid now self (apply_core_output store host cid src now out self).0
    unfolding apply_core_output
    apply_core_output-Isolates cid now src out self =
        Isolates-trans store (observed-Isolates cid now src out self)
          (settle_session-Isolates cid now _ (observed store host cid src out self))

    pub drive-Isolates :
        (cid now src : ℕ) (step : CoreMachine → CoreMachine × Result CoreError CoreOutput)
        (session : SessionRuntime) (self : ServerRuntime S)
        → Isolates store cid now self (drive store host cid src now step session self).0
    unfolding drive
    drive-Isolates cid now src step session self =
        let r = step session.core in
        let stepped : ServerRuntime S = record self {
          sessions = insert cid (record session { core = r.0 }) self.sessions;
        } in
        let moved : Isolates store cid now self stepped =
          same_store store cid now self stepped refl refl (λ i ne.
            get-insert_other store i cid (record session { core = r.0 }) self.sessions ne) in
        elim (Result-cases r.1) [
          | inr (reason, e) ↦ rw (e, drive) moved
          | inl (out, e) ↦
              rw (e, drive)
                (Isolates-trans store moved (apply_core_output-Isolates cid now src out stepped))
        ]

    on_session-Isolates :
        (cid now src : ℕ) (bytes : List ℕ) (o : Option SessionRuntime) (self : ServerRuntime S)
        → Isolates store cid now self (on_session store host cid now src bytes o self).0
    unfolding on_session
    on_session-Isolates cid now src bytes none self = Isolates-refl store cid now self
    on_session-Isolates cid now src bytes (some session) self =
        drive-Isolates cid now src (core_on_datagram now src bytes) session self

    pub on_frame-Isolates :
        (now src : ℕ) (bytes : List ℕ) (frame : WireFrame) (self : ServerRuntime S)
        → Isolates store frame.cid now self (on_frame store host now src bytes frame self).0
    unfolding on_frame
    on_frame-Isolates now src bytes frame self =
        let loaded = ensure_session_loaded store host frame.cid src now self in
        let first = ensure_session_loaded-Isolates frame.cid now src self in
        elim (Result-cases loaded.1) [
          | inr (reason, e) ↦ rw (e, on_frame) first
          | inl (u, e) ↦
              rw (e, on_frame)
                (Isolates-trans store first (
                  on_session-Isolates frame.cid now src bytes (get frame.cid loaded.0.sessions)
                    loaded.0))
        ]

    -- A datagram for one connection id, whether it is accepted or not, keeps the configuration, changes the
    -- session of no other id in memory and, where the store is sound, no later load of another id, and
    -- leaves the store sound.
    pub on_datagram-Isolates :
        (now src : ℕ) (bytes : List ℕ) (frame : WireFrame) (self : ServerRuntime S)
        → decode bytes ≡ ok frame
        → Isolates store frame.cid now self (on_datagram store host now src bytes self).0
    unfolding on_datagram
    on_datagram-Isolates now src bytes frame self e =
        rw (e, on_datagram) (on_frame-Isolates now src bytes frame self)
