-- ===== src/Runtime/Server/Isolation.antt =====
-- What a call of the server runtime of v3-server-runtime/src/lib.rs for one session leaves alone.
use todero_protocol_native.Base.{
  ℕ, ◌≡◌, ◌≢◌, refl, ap, ◌∙◌, List, [], ◌∷◌, if-elim, leb, length, take, Option-cases, Result-cases,
  inl, inr,
}
use todero_protocol_native.Base.Words.{from_be_bytes}
use todero_protocol_native.Base.BTreeMap.{get, insert, get-insert, contains}
use todero_protocol_native.Wire.Buffer.{Buf}
use todero_protocol_native.Wire.{MessageType, decode}
use todero_protocol_native.Core.Types.{OutboundDatagram}
use todero_protocol_native.Store.Shards.{live}
use todero_protocol_native.Store.Versions.{==_false}
use todero_protocol_native.Store.Contract.{SessionStore, AgreeFrom}
use todero_protocol_native.Runtime.Server.{ServerRuntime}
use todero_protocol_native.Runtime.Server.Metrics.{
  observe_data_id, observe_frame, observe_datagram, observe_datagrams,
}

module _ {S : Type 0} (store : SessionStore S) where
  -- From `self` to `next`, for the session `cid` at `now`, the sessions and stored entries of all other
  -- ids are kept.
  pub record Isolates (cid now : ℕ) (self next : ServerRuntime S) : Type 0 where
    pub sound : store.IsSound self.store → store.IsSound next.store
    pub cfg_kept : next.cfg ≡ self.cfg
    pub sessions_kept : (i : ℕ) → cid ≢ i → get i next.sessions ≡ get i self.sessions
    pub held_kept :
        store.IsSound self.store
        → (i : ℕ) → cid ≢ i
        → AgreeFrom now (store.held i next.store) (store.held i self.store)

  pub Isolates-refl : (cid now : ℕ) (self : ServerRuntime S) → Isolates cid now self self
  Isolates-refl cid now self = record {
    sound = λ h. h;
    cfg_kept = refl;
    sessions_kept = λ i _. refl;
    held_kept = λ _ i _ later _. refl;
  }

  pub Isolates-trans :
      {cid now : ℕ} {a b c : ServerRuntime S}
      → Isolates cid now a b
      → Isolates cid now b c
      → Isolates cid now a c
  Isolates-trans p q = record {
    sound = λ h. q.sound (p.sound h);
    cfg_kept = q.cfg_kept ∙ p.cfg_kept;
    sessions_kept = λ i ne. q.sessions_kept i ne ∙ p.sessions_kept i ne;
    held_kept =
        λ h i ne later le. q.held_kept (p.sound h) i ne later le ∙ p.held_kept h i ne later le;
  }

  -- Nothing but metrics and timers change, or the session of the id itself.
  pub same_store :
      (cid now : ℕ) (self next : ServerRuntime S)
      → next.store ≡ self.store
      → next.cfg ≡ self.cfg
      → ((i : ℕ) → cid ≢ i → get i next.sessions ≡ get i self.sessions)
      → Isolates cid now self next
  same_store cid now self next s c k = record {
    sound = λ h. rw s h;
    cfg_kept = c;
    sessions_kept = k;
    held_kept = λ _ i _ later _. ap (λ t. live later (store.held i t)) s;
  }

  pub get-insert_other :
      {V : Type 0} (i cid : ℕ) (v : V) (m : List (ℕ × V))
      → cid ≢ i
      → get i (insert cid v m) ≡ get i m
  get-insert_other i cid v m ne = get-insert i cid v m ∙ rw (==_false cid i ne)

  observe_data_id-Isolates :
      (cid now msg_id : ℕ) (self : ServerRuntime S)
      → Isolates cid now self (observe_data_id cid msg_id self)
  unfolding observe_data_id
  observe_data_id-Isolates cid now msg_id self = elim (Option-cases (get cid self.sessions)) [
    | inl e ↦ rw (e, observe_data_id) (Isolates-refl cid now self)
    | inr (session, e) ↦
        rw (e, observe_data_id)
          (if-elim (Isolates cid now self) (contains msg_id session.sent_data_ids)
            (λ _. same_store cid now self _ refl refl (λ i _. refl))
            (λ _.
              same_store cid now self _ refl refl
                (λ i ne. get-insert_other i cid _ self.sessions ne)))
  ]

  observe_frame-Isolates :
      (cid now : ℕ) (type_ : MessageType) (payload : List ℕ) (self : ServerRuntime S)
      → Isolates cid now self (observe_frame cid type_ payload self)
  unfolding observe_frame
  observe_frame-Isolates cid now MessageType.msr payload self =
      same_store cid now self _ refl refl (λ i _. refl)
  observe_frame-Isolates cid now MessageType.data_frame payload self =
      if-elim (Isolates cid now self) (leb 8 (length payload))
        (λ _.
          Isolates-trans (same_store cid now self _ refl refl (λ i _. refl))
            (observe_data_id-Isolates cid now (from_be_bytes (take 8 payload)) _))
        (λ _. same_store cid now self _ refl refl (λ i _. refl))
  observe_frame-Isolates cid now MessageType.client_hello payload self = Isolates-refl cid now self
  observe_frame-Isolates cid now MessageType.server_hello payload self = Isolates-refl cid now self
  observe_frame-Isolates cid now MessageType.hello_ack payload self = Isolates-refl cid now self
  observe_frame-Isolates cid now MessageType.request_range payload self = Isolates-refl cid now self
  observe_frame-Isolates cid now MessageType.fragment payload self = Isolates-refl cid now self
  observe_frame-Isolates cid now MessageType.error payload self = Isolates-refl cid now self
  observe_frame-Isolates cid now MessageType.close payload self = Isolates-refl cid now self

  module _ ⦃buf : Buf⦄ where
    pub observe_datagrams-Isolates :
        (cid now : ℕ) (ds : List OutboundDatagram) (self : ServerRuntime S)
        → Isolates cid now self (observe_datagrams cid ds self)
    unfolding observe_datagrams observe_datagram
    observe_datagrams-Isolates cid now [] self = Isolates-refl cid now self
    observe_datagrams-Isolates cid now (d ∷ ds) self = elim (Result-cases (decode d.bytes)) [
      | inr (reason, e) ↦
          rw (e, observe_datagrams, observe_datagram) (observe_datagrams-Isolates cid now ds self)
      | inl (frame, e) ↦
          rw (e, observe_datagrams, observe_datagram)
            (Isolates-trans (observe_frame-Isolates cid now frame.message_type frame.payload self)
              (observe_datagrams-Isolates cid now ds _))
    ]
