-- ===== src/Core/Operations.antt =====
-- The operations of v3-core/src/lib.rs that receive nothing, beside the timers: calls of the
-- application, path events.
use todero_protocol_native.Base.{ℕ, refl, not, List, [], ◌∷◌, some, ok, err, if-elim}
use todero_protocol_native.Base.Words.{saturating_add_u32, saturating_add_u64, saturating_mul_u64}
use todero_protocol_native.Wire.Buffer.{Buf}
use todero_protocol_native.Wire.{MessageType}
use todero_protocol_native.Core.Types.{
  is_client, is_established, is_lost, TimerId, TimerProposal, PathEvent, path_changed, Event,
  CoreMachine, done, push_event, push_timer,
}
use todero_protocol_native.Core.Codec.{
  encode_frame, encode_frame_with_tlvs, encode_msr_payload, encode_timer_proposal_tlv,
}
use todero_protocol_native.Core.Proposal.{validate_timer_proposal}
use todero_protocol_native.Core.Handlers.{max_pending_id}
use todero_protocol_native.Core.Machine.{start, begin_handshake}
use todero_protocol_native.Core.Api.{
  enqueue, on_path_event, advertise, on_api_send, on_api_close, propose, on_api_propose_timers,
}
use todero_protocol_native.Core.Flush.{delivered}
use todero_protocol_native.Core.Frame.{by_success}
use todero_protocol_native.Core.Session.{delivered_by}
use todero_protocol_native.Core.Inert.{
  Inert, Waits, finish-Inert, Inert-bind, Inert-push, Inert-event, Inert-start, Inert-lost, silent,
  idle, unable,
}
use todero_protocol_native.Core.Firing.{changed, push_timer-Inert}

pub on_path_event-Waits : (e : PathEvent) (self : CoreMachine) → Waits self (on_path_event e self)
unfolding on_path_event delivered_by delivered
on_path_event-Waits (path_changed path) self =
    silent self _ _
      (record { role = refl; cid = refl; stays_lost = λ h. h; ordered = refl; no_delivery = refl })
      refl

module _ ⦃buf : Buf⦄ where
  pub begin_handshake-Waits : (self : CoreMachine) → Waits self (begin_handshake self)
  unfolding begin_handshake delivered
  begin_handshake-Waits self =
      if-elim (Waits self) (is_client self.role)
        (λ _. finish-Inert (
          Inert-bind (Inert-push self.current_path_id _ (start self) (Inert-start self))
            (λ c p. by_success (Inert-event Event.handshake_started c refl p))))
        (λ _. idle self)

  advertise-Inert :
      (self queued : CoreMachine) → Inert self (start queued) → Waits self (advertise queued)
  unfolding advertise delivered
  advertise-Inert self queued p =
      if-elim (Waits self) (is_client queued.role)
        (λ _. finish-Inert (
          Inert-bind {f = λ c. done (push_event (Event.queue_advertised (max_pending_id queued)) c)}
            (Inert-push queued.current_path_id
              (encode_frame MessageType.msr queued.cid
                (encode_msr_payload 0 (max_pending_id queued)))
              _ p)
            (λ c q. by_success (Inert-event (Event.queue_advertised _) c refl q))))
        (λ _. finish-Inert (Inert-push queued.current_path_id _ _ p))

  enqueue-Inert :
      (payload : List ℕ) (self : CoreMachine) → Inert self (start (enqueue payload self))
  unfolding enqueue
  enqueue-Inert payload self = changed self _ refl refl (λ h. h) refl

  pub on_api_send-Waits :
      (payload : List ℕ) (self : CoreMachine) → Waits self (on_api_send payload self)
  unfolding on_api_send delivered_by delivered
  on_api_send-Waits payload self =
      let queued = enqueue payload self in
      if-elim (Waits self) (is_established queued.state)
        (λ _. advertise-Inert self queued (enqueue-Inert payload self))
        (λ _. silent self queued _ (enqueue-Inert payload self) refl)

  pub on_api_close-Waits : (self : CoreMachine) → Waits self (on_api_close self)
  unfolding on_api_close
  on_api_close-Waits self =
      if-elim (Waits self) (is_lost self.state) (λ _. idle self)
        (λ _. finish-Inert (
          Inert-bind (Inert-push self.current_path_id _ _ (Inert-start self))
            (λ c p. by_success (Inert-lost self c p))))

  propose-Waits :
      (now : ℕ) (p : TimerProposal) (self : CoreMachine) → Waits self (propose now p self)
  unfolding propose delivered max_pending_id
  propose-Waits now p self =
      let id = self.next_proposal_id in
      let at = saturating_add_u64 now (saturating_mul_u64 self.cfg.msr_interval_ms 2) in
      let self1 = record self {
        next_proposal_id = saturating_add_u32 self.next_proposal_id 1;
        pending_local_proposal =
            some (record { proposal_id = id; proposal = p; expires_at_ms = at });
      } in
      finish-Inert (
        Inert-bind
          {f = λ c. done (
            push_timer TimerId.renegotiation_timeout at
              (push_event (Event.timer_renegotiation_proposed id) c))}
          (Inert-push self.current_path_id
            (encode_frame_with_tlvs MessageType.msr self.cid
              (encode_msr_payload 0 (max_pending_id self)) (encode_timer_proposal_tlv id p ∷ []))
            (start self1) (changed self self1 refl refl (λ h. h) refl))
          (λ c q. by_success (
            push_timer-Inert self TimerId.renegotiation_timeout at _
              (Inert-event (Event.timer_renegotiation_proposed id) c refl q))))

  pub on_api_propose_timers-Waits :
      (now : ℕ) (p : TimerProposal) (self : CoreMachine)
      → Waits self (on_api_propose_timers now p self)
  unfolding on_api_propose_timers
  on_api_propose_timers-Waits now p self =
      if-elim (Waits self) (not (is_established self.state)) (λ _. unable self _)
        (λ _.
          elim (validate_timer_proposal self.cfg p)
            as (λ r. Waits self (elim r [ err e ↦ (self, err e) | ok _ ↦ propose now p self ])) [
              | err e ↦ unable self e
              | ok _ ↦ propose-Waits now p self
            ])
