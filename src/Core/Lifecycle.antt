-- ===== src/Core/Lifecycle.antt =====
-- `on_datagram` of v3-core/src/lib.rs: how a datagram moves the lifecycle on, and what it delivers.
use todero_protocol_native.Base.{
  ℕ, ◌≡◌, refl, ◌||◌, Bool, true, false, [], ◌∷◌, some, Option-cases, if-elim, inl, inr,
  if◌then◌else◌,
}
use todero_protocol_native.Wire.Buffer.{Buf}
use todero_protocol_native.Wire.{MessageType, WireFrame}
use todero_protocol_native.Core.Types.{
  LifecycleState, pre_handshake, established, reactivating, lost, is_client, is_server,
  is_pre_handshake, is_established, is_reactivating, Event, Ctx, push_event, piggyback_tlv,
}
use todero_protocol_native.Core.Codec.{find_msr_signal_tlv}
use todero_protocol_native.Core.Machine.{
  set_state, is_msr, server_on_client_hello, client_on_server_hello, server_on_hello_ack, dispatch,
  piggyback,
}
use todero_protocol_native.Core.Flush.{delivered}
use todero_protocol_native.Core.Frame.{
  Progress, establishes, reactivates, ends, Quiet, Quiet-refl, Quiet-trans, Ends, by_success,
  push_event-Quiet, push_datagram-Quiet, schedule_server_timers-Quiet, schedule_client_timers-Quiet,
  Ends-bind, Ends-weaken,
}
use todero_protocol_native.Core.Quiet.{
  handle_msr_signal-Quiet, handle_msr-Quiet, handle_request_range-Quiet,
}
use todero_protocol_native.Core.Delivery.{
  Quiet-Delivers, Delivers-refl, Handles, handled, Quiet-Handles, handle_data-Handles,
  handle_fragment-Handles,
}

-- A change of the state alone is quiet where the lifecycle may go on so.
pub set_state-Quiet :
    (s : LifecycleState) (c : Ctx) → Progress c.self.state s → Quiet c (set_state s c)
set_state-Quiet s c p = record {
  role = refl;
  cid = refl;
  progress = p;
  outbound = refl;
  ids = refl;
  buffer = refl;
  fragments = refl;
  ordered = refl;
  no_delivery = refl;
}

pub ended-Quiet : (c : Ctx) → Quiet c (push_event Event.disconnected (set_state lost c))
unfolding delivered
ended-Quiet c = Quiet-trans (set_state-Quiet lost c ends) (push_event-Quiet _ _ refl)

Progress-pre_handshake : (s : LifecycleState) → is_pre_handshake s ≡ true → Progress s established
Progress-pre_handshake pre_handshake e = establishes
Progress-pre_handshake established e = cc
Progress-pre_handshake reactivating e = cc
Progress-pre_handshake lost e = cc

Progress-waiting :
    (s : LifecycleState) → (is_pre_handshake s || is_reactivating s) ≡ true → Progress s established
Progress-waiting pre_handshake e = establishes
Progress-waiting reactivating e = reactivates
Progress-waiting established e = cc
Progress-waiting lost e = cc

established-Quiet :
    (c : Ctx)
    → is_pre_handshake c.self.state ≡ true
    → Quiet c (push_event Event.handshake_established (set_state established c))
unfolding delivered
established-Quiet c e =
    Quiet-trans (set_state-Quiet established c (Progress-pre_handshake _ e))
      (push_event-Quiet _ _ refl)

hello_event :
    (b : Bool)
    → delivered ((if b then Event.reactivated else Event.handshake_established) ∷ []) ≡ []
unfolding delivered
hello_event true = refl
hello_event false = refl

module _ ⦃buf : Buf⦄ where
  server_on_client_hello-Quiet :
      (now path : ℕ) (c : Ctx) → Ends (Quiet c) (server_on_client_hello now path c)
  unfolding server_on_client_hello
  server_on_client_hello-Quiet now path c =
      if-elim (Ends (Quiet c)) (is_pre_handshake c.self.state)
        (λ e.
          Ends-bind (Ends-weaken (established-Quiet c e) (push_datagram-Quiet path _ _))
            (λ c1. by_success (schedule_server_timers-Quiet now c1)))
        (λ _. by_success (Quiet-refl c))

  server_on_hello_ack-Quiet : (now : ℕ) (c : Ctx) → Ends (Quiet c) (server_on_hello_ack now c)
  unfolding server_on_hello_ack
  server_on_hello_ack-Quiet now c =
      if-elim (Ends (Quiet c)) (is_pre_handshake c.self.state)
        (λ e. by_success (Quiet-trans (established-Quiet c e) (schedule_server_timers-Quiet now _)))
        (λ _. by_success (Quiet-refl c))

  client_on_server_hello-Quiet :
      (now path : ℕ) (c : Ctx) → Ends (Quiet c) (client_on_server_hello now path c)
  unfolding client_on_server_hello
  client_on_server_hello-Quiet now path c =
      if-elim (Ends (Quiet c)) (is_pre_handshake c.self.state || is_reactivating c.self.state)
        (λ e.
          Ends-bind
            (Ends-weaken
              {b = record c {
                self = record (c.self) { state = established; last_server_msr_at_ms = some now };
              }}
              (search (Progress-waiting c.self.state e)) (push_datagram-Quiet path _ _))
            (λ c1. by_success (
              Quiet-trans (push_event-Quiet _ c1 (hello_event (is_reactivating c.self.state)))
                (schedule_client_timers-Quiet now _))))
        (λ _. by_success (Quiet-refl c))

  -- The handler of any message keeps the role and the connection id, moves the lifecycle on only as
  -- `Progress` allows (before the handshake or reactivating to established, any state to lost), and
  -- delivers the messages right behind the last one, in order; where it fails, the last ordered id
  -- is what it was.
  pub dispatch-Handles :
      (m : MessageType) (now path : ℕ) (frame : WireFrame) (c : Ctx)
      → Handles c (dispatch m now path frame c)
  unfolding dispatch
  dispatch-Handles MessageType.client_hello now path frame c =
      if-elim (Handles c) (is_server c.self.role)
        (λ _. Quiet-Handles (server_on_client_hello-Quiet now path c))
        (λ _. handled (Delivers-refl c))
  dispatch-Handles MessageType.server_hello now path frame c =
      if-elim (Handles c) (is_client c.self.role)
        (λ _. Quiet-Handles (client_on_server_hello-Quiet now path c))
        (λ _. handled (Delivers-refl c))
  dispatch-Handles MessageType.hello_ack now path frame c =
      if-elim (Handles c) (is_server c.self.role)
        (λ _. Quiet-Handles (server_on_hello_ack-Quiet now c)) (λ _. handled (Delivers-refl c))
  dispatch-Handles MessageType.msr now path frame c =
      Quiet-Handles (handle_msr-Quiet now path frame c)
  dispatch-Handles MessageType.request_range now path frame c =
      if-elim (Handles c) (is_established c.self.state)
        (λ _. Quiet-Handles (handle_request_range-Quiet path frame.payload c))
        (λ _. handled (Delivers-refl c))
  dispatch-Handles MessageType.data_frame now path frame c =
      if-elim (Handles c) (is_established c.self.state) (λ _. handle_data-Handles frame.payload c)
        (λ _. handled (Delivers-refl c))
  dispatch-Handles MessageType.fragment now path frame c =
      if-elim (Handles c) (is_established c.self.state)
        (λ _. handle_fragment-Handles frame.payload c) (λ _. handled (Delivers-refl c))
  dispatch-Handles MessageType.error now path frame c = handled (Quiet-Delivers (ended-Quiet c))
  dispatch-Handles MessageType.close now path frame c = handled (Quiet-Delivers (ended-Quiet c))

  pub piggyback-Quiet :
      (now path : ℕ) (frame : WireFrame) (c : Ctx) → Ends (Quiet c) (piggyback now path frame c)
  unfolding piggyback
  piggyback-Quiet now path frame c = elim (Option-cases (find_msr_signal_tlv frame.tlvs)) [
    | inl e ↦
        rw (e, piggyback)
          (if-elim (Ends (Quiet c)) (is_msr frame.message_type) (λ _. by_success (Quiet-refl c))
            (λ _. by_success (Quiet-refl c)))
    | inr ((acked, next), e) ↦
        rw (e, piggyback)
          (if-elim (Ends (Quiet c)) (is_msr frame.message_type) (λ _. by_success (Quiet-refl c))
            (λ _. handle_msr_signal-Quiet now path next piggyback_tlv c))
  ]
