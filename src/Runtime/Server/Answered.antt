-- ===== src/Runtime/Server/Answered.antt =====
-- A datagram and a message of the application at the server runtime of v3-server-runtime/src/lib.rs, and what
-- is saved of the session when they have been answered.
use todero_protocol_native.Base.{
  ℕ, ◌≡◌, refl, sym, ◌∙◌, List, Option, some, Result, ok, err, ==_refl, ltb, length, if-elim,
  Option-cases, Result-cases, inl, inr, err-ne-ok,
}
use todero_protocol_native.Base.BTreeMap.{get, insert, get-insert}
use todero_protocol_native.Wire.Buffer.{Buf}
use todero_protocol_native.Wire.{decode, WireFrame}
use todero_protocol_native.Core.Machine.{on_datagram as core_on_datagram}
use todero_protocol_native.Core.Api.{on_path_event as core_on_path_event}
use todero_protocol_native.Store.{StoreError, VersionedRecord}
use todero_protocol_native.Store.Contract.{SessionStore}
use todero_protocol_native.Runtime.Server.{
  RuntimeEvent, ServerRuntime, ServerRuntimeOutput, ServerRuntimeError, SessionRuntime, Host,
}
use todero_protocol_native.Runtime.Server.Metrics.{update_peak_sessions_metric}
use todero_protocol_native.Runtime.Server.Sessions.{open_session, ensure_session_loaded}
use todero_protocol_native.Runtime.Server.Calls.{on_session, on_frame, on_datagram, put_before}
use todero_protocol_native.Runtime.Server.Effects.{ensure_session_loaded-Isolates}
use todero_protocol_native.Runtime.Server.Saved.{Saved, drive-Saved}

module _ {S : Type 0} (store : SessionStore S) (host : Host) where
  -- Where the session is in memory afterwards.
  abbrev Found : ℕ → ServerRuntime S → Type 0
  Found cid self = (session : SessionRuntime) × (get cid self.sessions ≡ some session)

  peak-Found :
      (cid : ℕ) (self : ServerRuntime S)
      → Found cid self
      → Found cid (update_peak_sessions_metric self)
  unfolding update_peak_sessions_metric
  peak-Found cid self h =
      if-elim (Found cid) (ltb self.metrics.peak_sessions (length self.sessions)) (λ _. h) (λ _. h)

  inserted :
      (cid : ℕ) (v : SessionRuntime) (m : List (ℕ × SessionRuntime))
      → (session : SessionRuntime) × (get cid (insert cid v m) ≡ some session)
  inserted cid v m = (v, get-insert cid cid v m ∙ rw (==_refl cid))

  open_session-Found :
      (cid src : ℕ) (r : Result StoreError (Option VersionedRecord)) (self : ServerRuntime S)
      → (open_session store host cid src r self).1 ≡ ok tt
      → Found cid (open_session store host cid src r self).0
  unfolding open_session core_on_path_event
  open_session-Found cid src (err e) self h = absurd (err-ne-ok h)
  open_session-Found cid src (ok loaded) self h = peak-Found cid _ (inserted cid _ self.sessions)

  -- The code's `expect("session must exist after ensure_session_loaded")` does not panic.
  ensure_session_loaded-Found :
      (cid now src : ℕ) (self : ServerRuntime S)
      → (ensure_session_loaded store host cid src now self).1 ≡ ok tt
      → Found cid (ensure_session_loaded store host cid src now self).0
  unfolding ensure_session_loaded
  ensure_session_loaded-Found cid now src self = elim (Option-cases (get cid self.sessions)) [
    | inr (session, e) ↦ rw (e, ensure_session_loaded) (λ _. (session, e))
    | inl e ↦ rw (e, ensure_session_loaded) (λ h. open_session-Found cid src _ _ h)
  ]

  put_before-eq-ok :
      (events : List RuntimeEvent) (r : Result ServerRuntimeError ServerRuntimeOutput)
      {out : ServerRuntimeOutput}
      → put_before events r ≡ ok out
      → (o : ServerRuntimeOutput) × (r ≡ ok o)
  put_before-eq-ok events (err e) h = absurd (err-ne-ok h)
  put_before-eq-ok events (ok o) h = (o, refl)

  module _ ⦃buf : Buf⦄ where
    on_session-Saved :
        (cid now src : ℕ) (bytes : List ℕ) (session : SessionRuntime) (self : ServerRuntime S)
        {out : ServerRuntimeOutput}
        → store.IsSound self.store
        → (on_session store host cid now src bytes (some session) self).1 ≡ ok out
        → Saved store host cid now (on_session store host cid now src bytes (some session) self).0
    unfolding on_session
    on_session-Saved cid now src bytes session self sound h =
        let (o, e) = put_before-eq-ok _ _ h in
        drive-Saved store host cid now src (core_on_datagram now src bytes) session self sound e

    unloaded :
        (now src : ℕ) (bytes : List ℕ) (frame : WireFrame) (self : ServerRuntime S)
        (reason : ServerRuntimeError)
        → (ensure_session_loaded store host frame.cid src now self).1 ≡ err reason
        → (on_frame store host now src bytes frame self).1 ≡ err reason
    unfolding on_frame
    unloaded now src bytes frame self reason e = rw (e, on_frame)

    on_frame-Saved :
        (now src : ℕ) (bytes : List ℕ) (frame : WireFrame) (self : ServerRuntime S)
        {out : ServerRuntimeOutput}
        → store.IsSound self.store
        → (on_frame store host now src bytes frame self).1 ≡ ok out
        → Saved store host frame.cid now (on_frame store host now src bytes frame self).0
    unfolding on_frame
    on_frame-Saved now src bytes frame self sound =
        let loaded = ensure_session_loaded store host frame.cid src now self in
        elim (Result-cases loaded.1) [
          | inr (reason, e) ↦
              λ h. absurd (err-ne-ok (sym (unloaded now src bytes frame self reason e) ∙ h))
          | inl (u, e) ↦
              let (session, found) = ensure_session_loaded-Found frame.cid now src self e in
              let kept =
                (ensure_session_loaded-Isolates store host frame.cid now src self).sound sound in
              rw (e, on_frame, found)
                (λ h. on_session-Saved frame.cid now src bytes session loaded.0 kept h)
        ]

    -- When a datagram has been answered without an error, then either the store holds the session's
    -- record, made of the machine in memory and valid for the disconnect window from `now` on, and the
    -- machine is not lost, or the session is gone from memory and from the store. The store is any that
    -- keeps the promises of the trait.
    pub on_datagram-Saved :
        (now src : ℕ) (bytes : List ℕ) (frame : WireFrame) (self : ServerRuntime S)
        {out : ServerRuntimeOutput}
        → store.IsSound self.store
        → decode bytes ≡ ok frame
        → (on_datagram store host now src bytes self).1 ≡ ok out
        → Saved store host frame.cid now (on_datagram store host now src bytes self).0
    unfolding on_datagram
    on_datagram-Saved now src bytes frame self sound e =
        rw (e, on_datagram) (λ h. on_frame-Saved now src bytes frame self sound h)
