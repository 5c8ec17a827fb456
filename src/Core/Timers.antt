-- ===== src/Core/Timers.antt =====
-- `on_timer` of v3-core/src/lib.rs.
use todero_protocol_native.Base.{
  ℕ, not, ◌&&◌, ◌||◌, Option, none, some, Result, ok, ltb, leb, if◌then◌else◌,
}
use todero_protocol_native.Base.Words.{
  add_u64, saturating_add_u32, saturating_mul_u64, saturating_sub,
}
use todero_protocol_native.Wire.Buffer.{Buf}
use todero_protocol_native.Wire.{MessageType}
use todero_protocol_native.Core.Types.{
  reactivating, lost, is_client, is_server, is_established, is_reactivating, is_lost, TimerId,
  Event, CoreMachine, CoreOutput, no_output, CoreError, Outcome, done, ◌>>=◌, push_event,
  push_timer,
}
use todero_protocol_native.Core.Codec.{encode_frame, encode_msr_payload}
use todero_protocol_native.Core.Handlers.{push_datagram, max_pending_id, schedule_server_timers}
use todero_protocol_native.Core.Machine.{start, finish, set_state}

abbrev pub server_max_consecutive_msr : ℕ
server_max_consecutive_msr = 8

abbrev pub or_zero : Option ℕ → ℕ
or_zero none = 0
or_zero (some n) = n

module _ ⦃buf : Buf⦄ where
  -- `TimerId::ServerMsr`, for an established server.
  unfoldable pub server_msr_timer : ℕ → CoreMachine → CoreMachine × Result CoreError CoreOutput
  server_msr_timer now_ms self0 =
      let count = saturating_add_u32 self0.server_consecutive_msr_without_client_msr 1 in
      let self = record self0 { server_consecutive_msr_without_client_msr = count } in
      if ltb server_max_consecutive_msr count
      then finish (done (push_event Event.disconnected (set_state lost (start self))))
      else finish (
          push_datagram self.current_path_id
            (encode_frame MessageType.msr self.cid (encode_msr_payload self.last_ordered_rx 0))
            (start self)
          >>= λ c. done (schedule_server_timers now_ms c))

  -- The probe of `TimerId::ClientProbe`, where no MSR came for too long.
  unfoldable pub probe : ℕ → CoreMachine → Outcome
  probe now_ms self =
      let since_last = saturating_sub now_ms (or_zero self.last_server_msr_at_ms) in
      let miss_window = saturating_mul_u64 self.cfg.msr_interval_ms self.cfg.miss_window_count in
      if ltb miss_window since_last
      then (push_datagram self.current_path_id
            (encode_frame MessageType.msr self.cid (encode_msr_payload 0 (max_pending_id self)))
            (set_state reactivating (start self))
          >>= λ c. done (push_event Event.reactivation_probe_sent c))
      else done (start self)

  unfoldable pub client_probe_timer : ℕ → CoreMachine → CoreMachine × Result CoreError CoreOutput
  client_probe_timer now_ms self =
      if is_established self.state || is_reactivating self.state
      then finish (
          probe now_ms self >>= λ c.
          done (push_timer TimerId.client_probe (add_u64 now_ms c.self.cfg.msr_interval_ms) c))
      else (self, ok no_output)

  unfoldable pub disconnect_timer : ℕ → CoreMachine → CoreMachine × Result CoreError CoreOutput
  disconnect_timer now_ms self = elim self.disconnect_deadline_ms [
    | none ↦ (self, ok no_output)
    | some deadline ↦
        if leb deadline now_ms && not (is_lost self.state)
        then finish (done (push_event Event.disconnected (set_state lost (start self))))
        else finish (done (push_timer TimerId.disconnect deadline (start self)))
  ]

  unfoldable pub renegotiation_timer : ℕ → CoreMachine → CoreMachine × Result CoreError CoreOutput
  renegotiation_timer now_ms self = elim self.pending_local_proposal [
    | none ↦ (self, ok no_output)
    | some pending ↦
        if leb pending.expires_at_ms now_ms
        then finish (
            done (
              push_event (Event.timer_renegotiation_rolled_back pending.proposal_id)
                (start (record self { pending_local_proposal = none }))))
        else (self, ok no_output)
  ]

  unfoldable pub on_timer : ℕ → TimerId → CoreMachine → CoreMachine × Result CoreError CoreOutput
  on_timer now_ms TimerId.server_msr self =
      if is_server self.role && is_established self.state
      then server_msr_timer now_ms self
      else (self, ok no_output)
  on_timer now_ms TimerId.client_probe self =
      if is_client self.role then client_probe_timer now_ms self else (self, ok no_output)
  on_timer now_ms TimerId.disconnect self = disconnect_timer now_ms self
  on_timer now_ms TimerId.renegotiation_timeout self = renegotiation_timer now_ms self
