-- ===== src/Core/Api.antt =====
-- `on_api_send`, `on_api_close`, `on_api_propose_timers` and `on_path_event` of v3-core/src/lib.rs.
use todero_protocol_native.Base.{ℕ, not, List, [], ◌∷◌, some, Result, ok, err, if◌then◌else◌}
use todero_protocol_native.Base.Words.{
  add_u64, saturating_add_u32, saturating_add_u64, saturating_mul_u64,
}
use todero_protocol_native.Base.BTreeMap.{insert}
use todero_protocol_native.Wire.Buffer.{Buf}
use todero_protocol_native.Wire.{MessageType}
use todero_protocol_native.Core.Types.{
  lost, is_client, is_established, is_lost, TimerId, PathEvent, path_changed, Event, CoreMachine,
  CoreOutput, no_output, TimerProposal, CoreError, invalid_state_for_renegotiation, done, ◌>>=◌,
  push_event, push_timer,
}
use todero_protocol_native.Core.Codec.{
  encode_frame, encode_frame_with_tlvs, encode_msr_payload, encode_timer_proposal_tlv,
}
use todero_protocol_native.Core.Proposal.{validate_timer_proposal}
use todero_protocol_native.Core.Handlers.{push_datagram, max_pending_id}
use todero_protocol_native.Core.Machine.{start, finish, set_state}

-- `next_outbound_id` goes up by one, and the message is queued under its old value.
unfoldable pub enqueue : List ℕ → CoreMachine → CoreMachine
enqueue payload self = record self {
  next_outbound_id = add_u64 self.next_outbound_id 1;
  outbound_messages = insert self.next_outbound_id payload self.outbound_messages;
}

unfoldable pub on_path_event : PathEvent → CoreMachine → CoreMachine × Result CoreError CoreOutput
on_path_event (path_changed path_id) self =
    (record self { current_path_id = path_id }, ok no_output)

module _ ⦃buf : Buf⦄ where
  -- An MSR that announces the queue, from an established machine with the message queued.
  unfoldable pub advertise : CoreMachine → CoreMachine × Result CoreError CoreOutput
  advertise self =
      let pending = max_pending_id self in
      if is_client self.role
      then finish (
          push_datagram self.current_path_id
            (encode_frame MessageType.msr self.cid (encode_msr_payload 0 pending)) (start self)
          >>= λ c. done (push_event (Event.queue_advertised pending) c))
      else finish (
          push_datagram self.current_path_id
            (encode_frame MessageType.msr self.cid
              (encode_msr_payload self.last_ordered_rx pending))
            (start self))

  unfoldable pub on_api_send : List ℕ → CoreMachine → CoreMachine × Result CoreError CoreOutput
  on_api_send payload self =
      let queued = enqueue payload self in
      if is_established queued.state then advertise queued else (queued, ok no_output)

  unfoldable pub on_api_close : CoreMachine → CoreMachine × Result CoreError CoreOutput
  on_api_close self =
      if is_lost self.state
      then (self, ok no_output)
      else finish (
          push_datagram self.current_path_id (encode_frame MessageType.close self.cid [])
            (start self)
          >>= λ c. done (push_event Event.disconnected (set_state lost c)))

  unfoldable pub propose :
      ℕ → TimerProposal → CoreMachine → CoreMachine × Result CoreError CoreOutput
  propose now_ms proposal self0 =
      let proposal_id = self0.next_proposal_id in
      let expires_at_ms =
        saturating_add_u64 now_ms (saturating_mul_u64 self0.cfg.msr_interval_ms 2) in
      let self = record self0 {
        next_proposal_id = saturating_add_u32 self0.next_proposal_id 1;
        pending_local_proposal = some (record {
          proposal_id = proposal_id;
          proposal = proposal;
          expires_at_ms = expires_at_ms;
        });
      } in
      finish (
        push_datagram self.current_path_id
          (encode_frame_with_tlvs MessageType.msr self.cid
            (encode_msr_payload 0 (max_pending_id self))
            (encode_timer_proposal_tlv proposal_id proposal ∷ []))
          (start self)
        >>= λ c. done (
            push_timer TimerId.renegotiation_timeout expires_at_ms
              (push_event (Event.timer_renegotiation_proposed proposal_id) c)))

  unfoldable pub on_api_propose_timers :
      ℕ → TimerProposal → CoreMachine → CoreMachine × Result CoreError CoreOutput
  on_api_propose_timers now_ms proposal self =
      if not (is_established self.state)
      then (self, err invalid_state_for_renegotiation)
      else elim (validate_timer_proposal self.cfg proposal) [
        | err e ↦ (self, err e)
        | ok _ ↦ propose now_ms proposal self
      ]
