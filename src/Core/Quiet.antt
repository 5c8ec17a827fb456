-- ===== src/Core/Quiet.antt =====
-- The MSR handlers and the sending handlers of v3-core/src/lib.rs receive no message.
use todero_protocol_native.Base.{
  ℕ, zero, suc, ◌+◌, ◌≡◌, refl, sym, ◌&&◌, Bool, true, false, List, [], ◌∷◌, none, some,
  Option-cases, arith, if-elim, not, inl, inr, ltb, leb, ◌==◌, length,
}
use mathlib.Core.Path.{subst}
use todero_protocol_native.Base.Words.{saturating_add_u32}
use todero_protocol_native.Base.BTreeMap.{get}
use todero_protocol_native.Wire.Buffer.{Buf}
use todero_protocol_native.Wire.{MessageType, Tlv, WireFrame}
use todero_protocol_native.Core.Types.{
  LifecycleState, pre_handshake, established, reactivating, lost, is_client, is_server,
  is_established, is_reactivating, TimerProposal, MsrSource, Ctx,
}
use todero_protocol_native.Core.Codec.{
  tlv_timer_proposal, tlv_timer_ack, decode_msr_payload, decode_timer_proposal_tlv,
  decode_timer_ack_tlv, decode_range,
}
use todero_protocol_native.Core.Handlers.{
  client_keepalive_every_server_msr, max_data_payload_per_frame,
}
use todero_protocol_native.Core.Signals.{
  settle_proposal, apply_proposal, answer_proposal, handle_msr_tlv, handle_msr_tlvs,
  count_server_msr, reactivate, client_signal, server_signal, request_pending, handle_msr_signal,
  handle_msr, is_control,
}
use todero_protocol_native.Core.Sending.{
  push_with_signal, send_fragments, send_message, chunk_size, div_ceil, send_range,
  handle_request_range,
}
use todero_protocol_native.Core.Flush.{delivered}
use todero_protocol_native.Core.Frame.{
  Quiet, Quiet-refl, Quiet-trans, Ends, Ends-weaken, Ends-bind, by_success, by_error,
  push_event-Quiet, push_datagram-Quiet, stays, reactivates, Progress,
}

settle_none :
    (id : ℕ) (accepted : Bool) (c : Ctx)
    → c.self.pending_local_proposal ≡ none
    → settle_proposal id accepted c ≡ c
unfolding settle_proposal
settle_none id accepted c e = ground arith

settle_proposal-Quiet :
    (id : ℕ) (accepted : Bool) (c : Ctx) → Quiet c (settle_proposal id accepted c)
unfolding settle_proposal delivered
settle_proposal-Quiet id accepted c = elim (Option-cases c.self.pending_local_proposal) [
  | inl e ↦ subst (Quiet c) (sym (settle_none id accepted c e)) (Quiet-refl c)
  | inr (p, e) ↦
      simp (e, settle_proposal)
        (if-elim (Quiet c) (not (p.proposal_id == id)) (λ _. Quiet-refl c)
          (λ _.
            if-elim (Quiet c) accepted (λ _. Quiet-trans (search stays) (push_event-Quiet _ _ refl))
              (λ _. Quiet-trans (search stays) (push_event-Quiet _ _ refl))))
]

apply_proposal-Quiet :
    (id : ℕ) (p : TimerProposal) (accepted : Bool) (c : Ctx)
    → Quiet c (apply_proposal id p accepted c)
unfolding apply_proposal delivered
apply_proposal-Quiet id p true c = Quiet-trans (search stays) (push_event-Quiet _ _ refl)
apply_proposal-Quiet id p false c = push_event-Quiet _ c refl

pub Progress-reactivating : (s : LifecycleState) → is_reactivating s ≡ true → Progress s established
Progress-reactivating reactivating e = reactivates
Progress-reactivating pre_handshake e = cc
Progress-reactivating established e = cc
Progress-reactivating lost e = cc

reactivate-Quiet : (c : Ctx) → Quiet c (reactivate c)
unfolding reactivate delivered
reactivate-Quiet c =
    if-elim (Quiet c) (is_reactivating c.self.state)
      (λ e. Quiet-trans (search (Progress-reactivating c.self.state e)) (push_event-Quiet _ _ refl))
      (λ _. Quiet-refl c)

server_signal-Quiet : (c : Ctx) → Quiet c (server_signal c)
unfolding server_signal
server_signal-Quiet c =
    if-elim (Quiet c) (is_server c.self.role) (λ _. search stays) (λ _. Quiet-refl c)

module _ ⦃buf : Buf⦄ where
  answer_proposal-Quiet :
      (path id : ℕ) (p : TimerProposal) (c : Ctx) → Ends (Quiet c) (answer_proposal path id p c)
  unfolding answer_proposal
  answer_proposal-Quiet path id p c =
      Ends-bind (push_datagram-Quiet path _ c) (λ c1. by_success (apply_proposal-Quiet id p _ c1))

  handle_msr_tlv-Quiet :
      (path : ℕ) (tlv : Tlv) (c : Ctx) → Ends (Quiet c) (handle_msr_tlv path tlv c)
  unfolding handle_msr_tlv
  handle_msr_tlv-Quiet path tlv c =
      if-elim (Ends (Quiet c)) (tlv.kind == tlv_timer_proposal)
        (λ _. elim (Option-cases (decode_timer_proposal_tlv tlv)) [
          | inl e ↦ rw e (by_error (Quiet-refl c))
          | inr ((id, p), e) ↦ rw e (answer_proposal-Quiet path id p c)
        ])
        (λ _.
          if-elim (Ends (Quiet c)) (tlv.kind == tlv_timer_ack)
            (λ _. elim (Option-cases (decode_timer_ack_tlv tlv)) [
              | inl e ↦ rw e (by_error (Quiet-refl c))
              | inr ((id, accepted), e) ↦ rw e (by_success (settle_proposal-Quiet id accepted c))
            ])
            (λ _. by_success (Quiet-refl c)))

  handle_msr_tlvs-Quiet :
      (path : ℕ) (tlvs : List Tlv) (c : Ctx) → Ends (Quiet c) (handle_msr_tlvs path tlvs c)
  unfolding handle_msr_tlvs
  handle_msr_tlvs-Quiet path [] c = by_success (Quiet-refl c)
  handle_msr_tlvs-Quiet path (tlv ∷ tlvs) c =
      Ends-bind (handle_msr_tlv-Quiet path tlv c) (λ c1. handle_msr_tlvs-Quiet path tlvs c1)

  count_server_msr-Quiet :
      (path : ℕ) (source : MsrSource) (c : Ctx) → Ends (Quiet c) (count_server_msr path source c)
  unfolding count_server_msr
  count_server_msr-Quiet path source c =
      if-elim (Ends (Quiet c)) (not (is_control source)) (λ _. by_success (Quiet-refl c))
        (λ _.
          if-elim (Ends (Quiet c))
            (leb client_keepalive_every_server_msr
              (saturating_add_u32 c.self.client_server_msr_rx_since_last_keepalive 1))
            (λ _.
              Ends-weaken
                {b = record c {
                  self = record (c.self) { client_server_msr_rx_since_last_keepalive = 0 };
                }}
                (search stays) (push_datagram-Quiet path _ _))
            (λ _.
              by_success
                {c = record c {
                  self = record (c.self) {
                    client_server_msr_rx_since_last_keepalive =
                        saturating_add_u32 c.self.client_server_msr_rx_since_last_keepalive 1;
                  };
                }}
                (search stays)))

  client_signal-Quiet :
      (now path : ℕ) (source : MsrSource) (c : Ctx)
      → Ends (Quiet c) (client_signal now path source c)
  unfolding client_signal
  client_signal-Quiet now path source c =
      if-elim (Ends (Quiet c)) (is_client c.self.role)
        (λ _.
          Ends-bind
            (Ends-weaken
              {b = record c { self = record (c.self) { last_server_msr_at_ms = some now } }}
              (search stays) (count_server_msr-Quiet path source _))
            (λ c1. by_success (reactivate-Quiet c1)))
        (λ _. by_success (Quiet-refl c))

  request_pending-Quiet : (path next : ℕ) (c : Ctx) → Ends (Quiet c) (request_pending path next c)
  unfolding request_pending delivered
  request_pending-Quiet path next c =
      if-elim (Ends (Quiet c)) (is_established c.self.state && ltb c.self.last_requested_end next)
        (λ _.
          Ends-bind
            (Ends-weaken {b = record c { self = record (c.self) { last_requested_end = next } }}
              (search stays) (push_datagram-Quiet path _ _))
            (λ c1. by_success (push_event-Quiet _ c1 refl)))
        (λ _. by_success (Quiet-refl c))

  pub handle_msr_signal-Quiet :
      (now path next : ℕ) (source : MsrSource) (c : Ctx)
      → Ends (Quiet c) (handle_msr_signal now path next source c)
  unfolding handle_msr_signal
  handle_msr_signal-Quiet now path next source c =
      Ends-bind (client_signal-Quiet now path source c)
        (λ c1. Ends-weaken (server_signal-Quiet c1) (request_pending-Quiet path next _))

  pub handle_msr-Quiet :
      (now path : ℕ) (frame : WireFrame) (c : Ctx) → Ends (Quiet c) (handle_msr now path frame c)
  unfolding handle_msr
  handle_msr-Quiet now path frame c = elim (Option-cases (decode_msr_payload frame.payload)) [
    | inl e ↦ rw (e, handle_msr) (by_error (Quiet-refl c))
    | inr ((acked, next), e) ↦
        rw (e, handle_msr)
          (Ends-bind (handle_msr_tlvs-Quiet path frame.tlvs c)
            (handle_msr_signal-Quiet now path next _))
  ]

  send_fragments-Quiet :
      (path id total idx : ℕ) (pieces : List (List ℕ)) (c : Ctx)
      → Ends (Quiet c) (send_fragments path id total idx pieces c)
  unfolding send_fragments push_with_signal
  send_fragments-Quiet path id total idx [] c = by_success (Quiet-refl c)
  send_fragments-Quiet path id total idx (p ∷ ps) c =
      if-elim (Ends (Quiet c)) (ltb 0xffff idx) (λ _. by_error (Quiet-refl c))
        (λ _.
          Ends-bind (push_datagram-Quiet path _ c)
            (λ c1. send_fragments-Quiet path id total (idx + 1) ps c1))

  push_with_signal-Quiet :
      (path : ℕ) (m : MessageType) (payload : List ℕ) (c : Ctx)
      → Ends (Quiet c) (push_with_signal path m payload c)
  unfolding push_with_signal
  push_with_signal-Quiet path m payload c = push_datagram-Quiet path _ c

  send_message-Quiet : (path id : ℕ) (c : Ctx) → Ends (Quiet c) (send_message path id c)
  unfolding send_message
  send_message-Quiet path id c = elim (Option-cases (get id c.self.outbound_messages)) [
    | inl e ↦ rw (e, send_message) (by_success (Quiet-refl c))
    | inr (msg, e) ↦
        rw (e, send_message)
          (if-elim (Ends (Quiet c)) (leb (8 + length msg) max_data_payload_per_frame)
            (λ _. push_with_signal-Quiet path _ _ c)
            (λ _.
              if-elim (Ends (Quiet c)) (ltb 0xffff (div_ceil (length msg) chunk_size))
                (λ _. by_error (Quiet-refl c)) (λ _. send_fragments-Quiet path id _ 0 _ c)))
  ]

  send_range-Quiet : (rounds path id : ℕ) (c : Ctx) → Ends (Quiet c) (send_range rounds path id c)
  unfolding send_range
  send_range-Quiet zero path id c = by_success (Quiet-refl c)
  send_range-Quiet (suc rounds) path id c =
      Ends-bind (send_message-Quiet path id c) (λ c1. send_range-Quiet rounds path (id + 1) c1)

  pub handle_request_range-Quiet :
      (path : ℕ) (payload : List ℕ) (c : Ctx) → Ends (Quiet c) (handle_request_range path payload c)
  unfolding handle_request_range
  handle_request_range-Quiet path payload c = elim (Option-cases (decode_range payload)) [
    | inl e ↦ rw (e, handle_request_range) (by_error (Quiet-refl c))
    | inr ((start, end), e) ↦ rw (e, handle_request_range) (send_range-Quiet _ path start c)
  ]
