-- ===== src/Core/Signals.antt =====
-- `handle_msr` and `handle_msr_signal` of v3-core/src/lib.rs.
use todero_protocol_native.Base.{
  ℕ, Bool, true, false, not, ◌&&◌, List, [], ◌∷◌, none, some, Result, ok, err, ltb, leb, ◌==◌,
  if◌then◌else◌,
}
use todero_protocol_native.Base.Words.{add_u64, saturating_add_u32}
use todero_protocol_native.Wire.Buffer.{Buf}
use todero_protocol_native.Wire.{MessageType, Tlv, WireFrame}
use todero_protocol_native.Core.Types.{
  established, is_client, is_server, is_established, is_reactivating, Event, TimerProposal,
  MsrSource, control_msr_frame, piggyback_tlv, malformed_msr, malformed_timer_proposal,
  malformed_timer_ack, Ctx, Outcome, done, failed, ◌>>=◌, push_event, to_config,
}
use todero_protocol_native.Core.Codec.{
  tlv_timer_proposal, tlv_timer_ack, encode_frame, encode_frame_with_tlvs, encode_msr_payload,
  decode_msr_payload, encode_msr_signal_tlv, encode_range, decode_timer_proposal_tlv,
  encode_timer_ack_tlv, decode_timer_ack_tlv,
}
use todero_protocol_native.Core.Proposal.{validate_timer_proposal}
use todero_protocol_native.Core.Handlers.{
  push_datagram, max_pending_id, client_keepalive_every_server_msr,
}

-- `validate_timer_proposal(..).is_ok()`
abbrev pub is_ok {ℓ} : {E : Type 0} {A : Type ℓ} → Result E A → Bool
is_ok (ok a) = true
is_ok (err e) = false

abbrev pub is_control : MsrSource → Bool
is_control control_msr_frame = true
is_control piggyback_tlv = false

-- The answer to a timer acknowledgement, where a local proposal waits.
unfoldable pub settle_proposal : ℕ → Bool → Ctx → Ctx
settle_proposal proposal_id accepted c = elim c.self.pending_local_proposal [
  | none ↦ c
  | some pending ↦
      if not (pending.proposal_id == proposal_id)
      then c
      else if accepted
      then push_event (Event.timer_renegotiation_committed proposal_id) (record c {
        self = record (c.self) { cfg = to_config pending.proposal; pending_local_proposal = none };
      })
      else push_event (Event.timer_renegotiation_rejected proposal_id)
          (record c { self = record (c.self) { pending_local_proposal = none } })
]

-- The end of the proposal's branch, after the acknowledgement was sent.
unfoldable pub apply_proposal : ℕ → TimerProposal → Bool → Ctx → Ctx
apply_proposal proposal_id proposal accepted c =
    if accepted
    then push_event (Event.timer_renegotiation_committed proposal_id)
        (record c { self = record (c.self) { cfg = to_config proposal } })
    else push_event (Event.timer_renegotiation_rejected proposal_id) c

unfoldable pub reactivate : Ctx → Ctx
reactivate c =
    if is_reactivating c.self.state
    then push_event Event.reactivated (record c { self = record (c.self) { state = established } })
    else c

unfoldable pub server_signal : Ctx → Ctx
server_signal c =
    if is_server c.self.role
    then record c { self = record (c.self) { server_consecutive_msr_without_client_msr = 0 } }
    else c

module _ ⦃buf : Buf⦄ where
  unfoldable pub answer_proposal : ℕ → ℕ → TimerProposal → Ctx → Outcome
  answer_proposal src_path_id proposal_id proposal c = do
    let accepted = is_ok (validate_timer_proposal c.self.cfg proposal)
    let ack_tlv = encode_timer_ack_tlv proposal_id accepted
    let msr = encode_msr_payload c.self.last_ordered_rx (max_pending_id c.self)
    c1 ←
        push_datagram src_path_id
          (encode_frame_with_tlvs MessageType.msr c.self.cid msr (ack_tlv ∷ [])) c
    done (apply_proposal proposal_id proposal accepted c1)

  -- One round of the loop of `handle_msr` over the frame's TLVs.
  unfoldable pub handle_msr_tlv : ℕ → Tlv → Ctx → Outcome
  handle_msr_tlv src_path_id tlv c =
      if tlv.kind == tlv_timer_proposal
      then elim (decode_timer_proposal_tlv tlv) [
        | none ↦ failed malformed_timer_proposal c
        | some (proposal_id, proposal) ↦ answer_proposal src_path_id proposal_id proposal c
      ]
      else if tlv.kind == tlv_timer_ack
      then elim (decode_timer_ack_tlv tlv) [
        | none ↦ failed malformed_timer_ack c
        | some (proposal_id, accepted) ↦ done (settle_proposal proposal_id accepted c)
      ]
      else done c

  unfoldable pub handle_msr_tlvs : ℕ → List Tlv → Ctx → Outcome
  handle_msr_tlvs src_path_id [] c = done c
  handle_msr_tlvs src_path_id (tlv ∷ tlvs) c = do
    c1 ← handle_msr_tlv src_path_id tlv c
    handle_msr_tlvs src_path_id tlvs c1

  -- The client's keepalive, which answers every fourth MSR frame of the server.
  unfoldable pub count_server_msr : ℕ → MsrSource → Ctx → Outcome
  count_server_msr src_path_id source c =
      let count = saturating_add_u32 c.self.client_server_msr_rx_since_last_keepalive 1 in
      if not (is_control source)
      then done c
      else if leb client_keepalive_every_server_msr count
      then push_datagram src_path_id
          (encode_frame MessageType.msr c.self.cid
            (encode_msr_payload c.self.last_ordered_rx (max_pending_id c.self)))
          (record c { self = record (c.self) { client_server_msr_rx_since_last_keepalive = 0 } })
      else done (record c {
        self = record (c.self) { client_server_msr_rx_since_last_keepalive = count };
      })

  -- The part of `handle_msr_signal` for a client.
  unfoldable pub client_signal : ℕ → ℕ → MsrSource → Ctx → Outcome
  client_signal now_ms src_path_id source c =
      if is_client c.self.role
      then (count_server_msr src_path_id source
            (record c { self = record (c.self) { last_server_msr_at_ms = some now_ms } })
          >>= λ c1. done (reactivate c1))
      else done c

  -- The request for what the peer has announced and was not requested before.
  unfoldable pub request_pending : ℕ → ℕ → Ctx → Outcome
  request_pending src_path_id next_pending c =
      let start = add_u64 c.self.last_requested_end 1 in
      let end = next_pending in
      let tlv = encode_msr_signal_tlv c.self.last_ordered_rx (max_pending_id c.self) in
      if is_established c.self.state && ltb c.self.last_requested_end next_pending
      then (push_datagram src_path_id
            (encode_frame_with_tlvs MessageType.request_range c.self.cid (encode_range start end)
              (tlv ∷ []))
            (record c { self = record (c.self) { last_requested_end = end } })
          >>= λ c1. done (push_event (Event.request_range_sent start end) c1))
      else done c

  unfoldable pub handle_msr_signal : ℕ → ℕ → ℕ → MsrSource → Ctx → Outcome
  handle_msr_signal now_ms src_path_id next_pending source c = do
    c1 ← client_signal now_ms src_path_id source c
    request_pending src_path_id next_pending (server_signal c1)

  unfoldable pub handle_msr : ℕ → ℕ → WireFrame → Ctx → Outcome
  handle_msr now_ms src_path_id frame c = elim (decode_msr_payload frame.payload) [
    | none ↦ failed malformed_msr c
    | some (_, next_pending) ↦
        handle_msr_tlvs src_path_id frame.tlvs c
        >>= handle_msr_signal now_ms src_path_id next_pending control_msr_frame
  ]
