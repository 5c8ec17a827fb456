-- ===== src/Runtime/Server/Saved.antt =====
-- After a call of the server runtime of v3-server-runtime/src/lib.rs that succeeds, what the store holds for
-- the session is what is in memory.
use todero_protocol_native.Base.{
  ℕ, ◌≡◌, refl, sym, ◌∙◌, false, List, [], ◌∷◌, none, some, Result, ok, err, if-elim, ==_refl, leb,
  length, take, Bool-cases, Result-cases, inl, inr, err-ne-ok,
}
use todero_protocol_native.Base.Words.{saturating_add_u64, from_be_bytes}
use todero_protocol_native.Base.BTreeMap.{get, insert, get-insert, get-remove, contains, insert_set}
use todero_protocol_native.Wire.Buffer.{Buf}
use todero_protocol_native.Wire.{MessageType, decode}
use todero_protocol_native.Core.Types.{
  is_lost, OutboundDatagram, CoreMachine, CoreOutput, CoreError,
}
use todero_protocol_native.Store.{Entry, next_entry}
use todero_protocol_native.Store.Shards.{live}
use todero_protocol_native.Store.Contract.{SessionStore}
use todero_protocol_native.Runtime.Server.{
  ServerRuntime, ServerRuntimeOutput, core_error, SessionRuntime, Host,
}
use todero_protocol_native.Runtime.Server.Metrics.{
  observe_data_id, observe_frame, observe_datagram, observe_datagrams,
}
use todero_protocol_native.Runtime.Server.Sessions.{
  drop_session, save_session, settle_session, observed, with_paths, apply_core_output, saved_record,
  observe_core_events, ingest_timers,
}
use todero_protocol_native.Runtime.Server.Calls.{drive}
use todero_protocol_native.Runtime.Server.Effects.{observed-Isolates}

module _ {S : Type 0} (store : SessionStore S) (host : Host) where
  -- The session is in neither, or it is live in memory and the store holds what is to be saved of it,
  -- until the disconnect window is over.
  pub data Saved (cid now : ℕ) (self : ServerRuntime S) : Type 0 where
    ended : get cid self.sessions ≡ none → store.held cid self.store ≡ none → Saved cid now self
    kept :
        (session : SessionRuntime) (entry : Entry)
        → get cid self.sessions ≡ some session
        → is_lost session.core.state ≡ false
        → store.held cid self.store ≡ some entry
        → entry.record_ ≡ saved_record store host cid session self
        → entry.expires_at_ms ≡ saturating_add_u64 now self.cfg.disconnect_window_ms
        → Saved cid now self

  settle_session-Saved :
      (cid now : ℕ) (session : SessionRuntime) (self : ServerRuntime S)
      → get cid self.sessions ≡ some session
      → store.IsSound self.store
      → Saved cid now (settle_session store host cid now (some session) self).0
  unfolding settle_session drop_session save_session next_entry
  settle_session-Saved cid now session self found h =
      elim (Bool-cases (is_lost session.core.state)) [
        | inl lost ↦
            rw (lost, settle_session)
              (ended (get-remove cid cid self.sessions ∙ rw (==_refl cid))
                (store.delete_held cid self.store h cid ∙ rw (==_refl cid)))
        | inr live_ ↦
            let r = saved_record store host cid session self in
            let ttl = self.cfg.disconnect_window_ms in
            let entry = next_entry (live now (store.held cid self.store)) r ttl now in
            rw (live_, settle_session)
              (kept session entry found live_
                (store.upsert_held cid r ttl now self.store h cid ∙ rw (==_refl cid)) refl refl)
      ]

  -- The session is still there, with the same machine.
  Holds : ℕ → CoreMachine → ServerRuntime S → Type 0
  Holds cid machine self =
      (session : SessionRuntime) × (get cid self.sessions ≡ some session) × (session.core ≡ machine)

  observe_data_id-Holds :
      (cid msg_id : ℕ) (machine : CoreMachine) (self : ServerRuntime S)
      → Holds cid machine self
      → Holds cid machine (observe_data_id cid msg_id self)
  unfolding observe_data_id Holds
  observe_data_id-Holds cid msg_id machine self (session, e, same) =
      rw (e, observe_data_id)
        (if-elim
          (λ (next : ServerRuntime S).
            (s : SessionRuntime) × (get cid next.sessions ≡ some s) × (s.core ≡ machine))
          (contains msg_id session.sent_data_ids) (λ _. (session, e, same))
          (λ _. (
            record session { sent_data_ids = insert_set msg_id session.sent_data_ids },
            get-insert cid cid _ self.sessions ∙ rw (==_refl cid),
            same,
          )))

  observe_frame-Holds :
      (cid : ℕ) (type_ : MessageType) (payload : List ℕ) (machine : CoreMachine)
      (self : ServerRuntime S)
      → Holds cid machine self
      → Holds cid machine (observe_frame cid type_ payload self)
  unfolding observe_frame Holds
  observe_frame-Holds cid MessageType.msr payload machine self h = h
  observe_frame-Holds cid MessageType.data_frame payload machine self h =
      if-elim
        (λ (next : ServerRuntime S).
          (s : SessionRuntime) × (get cid next.sessions ≡ some s) × (s.core ≡ machine))
        (leb 8 (length payload))
        (λ _. observe_data_id-Holds cid (from_be_bytes (take 8 payload)) machine _ h) (λ _. h)
  observe_frame-Holds cid MessageType.client_hello payload machine self h = h
  observe_frame-Holds cid MessageType.server_hello payload machine self h = h
  observe_frame-Holds cid MessageType.hello_ack payload machine self h = h
  observe_frame-Holds cid MessageType.request_range payload machine self h = h
  observe_frame-Holds cid MessageType.fragment payload machine self h = h
  observe_frame-Holds cid MessageType.error payload machine self h = h
  observe_frame-Holds cid MessageType.close payload machine self h = h

  module _ ⦃buf : Buf⦄ where
    observe_datagrams-Holds :
        (cid : ℕ) (ds : List OutboundDatagram) (machine : CoreMachine) (self : ServerRuntime S)
        → Holds cid machine self
        → Holds cid machine (observe_datagrams cid ds self)
    unfolding observe_datagrams observe_datagram
    observe_datagrams-Holds cid [] machine self h = h
    observe_datagrams-Holds cid (d ∷ ds) machine self h = elim (Result-cases (decode d.bytes)) [
      | inr (reason, e) ↦
          rw (e, observe_datagrams, observe_datagram)
            (observe_datagrams-Holds cid ds machine self h)
      | inl (frame, e) ↦
          rw (e, observe_datagrams, observe_datagram)
            (observe_datagrams-Holds cid ds machine _
              (observe_frame-Holds cid frame.message_type frame.payload machine self h))
    ]

    apply_core_output-Saved :
        (cid now src : ℕ) (out : CoreOutput) (machine : CoreMachine) (self : ServerRuntime S)
        → Holds cid machine self
        → store.IsSound self.store
        → Saved cid now (apply_core_output store host cid src now out self).0
    unfolding apply_core_output observed Holds
    apply_core_output-Saved cid now src out machine self h sound =
        let seen = observed store host cid src out self in
        let before : ServerRuntime S = record self {
          metrics = observe_core_events out.events self.metrics;
          timers = ingest_timers cid out.timer_actions self.timers;
        } in
        let (session, e, same) =
          observe_datagrams-Holds cid (with_paths src out.outbound_datagrams) machine before h in
        rw e (
          settle_session-Saved cid now session seen e
            ((observed-Isolates store host cid now src out self).sound sound))

    drive-err :
        (cid now src : ℕ) (step : CoreMachine → CoreMachine × Result CoreError CoreOutput)
        (session : SessionRuntime) (self : ServerRuntime S) (reason : CoreError)
        → (step session.core).1 ≡ err reason
        → (drive store host cid src now step session self).1 ≡ err (core_error reason)
    unfolding drive
    drive-err cid now src step session self reason e = rw (e, drive)

    pub drive-Saved :
        (cid now src : ℕ) (step : CoreMachine → CoreMachine × Result CoreError CoreOutput)
        (session : SessionRuntime) (self : ServerRuntime S) {out : ServerRuntimeOutput}
        → store.IsSound self.store
        → (drive store host cid src now step session self).1 ≡ ok out
        → Saved cid now (drive store host cid src now step session self).0
    unfolding drive Holds
    drive-Saved cid now src step session self sound h =
        let r = step session.core in
        let stepped : ServerRuntime S = record self {
          sessions = insert cid (record session { core = r.0 }) self.sessions;
        } in
        let holds : Holds cid r.0 stepped = (
          record session { core = r.0 },
          get-insert cid cid (record session { core = r.0 }) self.sessions ∙ rw (==_refl cid),
          refl,
        ) in
        elim (Result-cases r.1) [
          | inr (reason, e) ↦
              absurd (err-ne-ok (sym (drive-err cid now src step session self reason e) ∙ h))
          | inl (output, e) ↦
              rw (e, drive) (apply_core_output-Saved cid now src output r.0 stepped holds sound)
        ]
