-- ===== src/Core/Machine.antt =====
-- The public operations of `CoreMachine` in v3-core/src/lib.rs. Each returns the machine after it
-- and its result; on an error the output is dropped and the machine keeps its changes.
use todero_protocol_native.Base.{
  ℕ, Bool, true, false, not, ◌&&◌, ◌||◌, List, [], ◌∷◌, none, some, Result, ok, err, ◌==◌,
  if◌then◌else◌,
}
use todero_protocol_native.Wire.Buffer.{Buf}
use todero_protocol_native.Wire.{MessageType, WireFrame, decode}
use todero_protocol_native.Core.Types.{
  LifecycleState, established, lost, is_client, is_server, is_pre_handshake, is_established,
  is_reactivating, Event, CoreMachine, CoreOutput, no_output, piggyback_tlv, CoreError,
  cid_mismatch, Ctx, Outcome, done, failed, ◌>>=◌, push_event,
}
use todero_protocol_native.Core.Codec.{encode_frame, find_msr_signal_tlv}
use todero_protocol_native.Core.Handlers.{
  push_datagram, touch_disconnect_deadline, schedule_server_timers, schedule_client_timers,
  on_valid_peer_datagram, handle_data, handle_fragment,
}
use todero_protocol_native.Core.Signals.{handle_msr, handle_msr_signal}
use todero_protocol_native.Core.Sending.{handle_request_range}

abbrev pub start : CoreMachine → Ctx
start self = record { self = self; out = no_output }

abbrev pub finish : Outcome → CoreMachine × Result CoreError CoreOutput
finish (done c) = (c.self, ok c.out)
finish (failed e c) = (c.self, err e)

abbrev pub set_state : LifecycleState → Ctx → Ctx
set_state state c = record c { self = record (c.self) { state = state } }

abbrev pub is_msr : MessageType → Bool
is_msr message_type = elim message_type [ MessageType.msr ↦ true | _ ↦ false ]

module _ ⦃buf : Buf⦄ where
  unfoldable pub begin_handshake : CoreMachine → CoreMachine × Result CoreError CoreOutput
  begin_handshake self =
      if is_client self.role
      then finish (
          push_datagram self.current_path_id (encode_frame MessageType.client_hello self.cid [])
            (start self)
          >>= λ c. done (push_event Event.handshake_started c))
      else (self, ok no_output)

  -- The branches of `on_datagram` for the handshake's messages, by role and state.
  unfoldable pub server_on_client_hello : ℕ → ℕ → Ctx → Outcome
  server_on_client_hello now_ms src_path_id c =
      if is_pre_handshake c.self.state
      then (push_datagram src_path_id (encode_frame MessageType.server_hello c.self.cid [])
            (push_event Event.handshake_established (set_state established c))
          >>= λ c1. done (schedule_server_timers now_ms c1))
      else done c

  unfoldable pub client_on_server_hello : ℕ → ℕ → Ctx → Outcome
  client_on_server_hello now_ms src_path_id c =
      let was_reactivating = is_reactivating c.self.state in
      let event = if was_reactivating then Event.reactivated else Event.handshake_established in
      if is_pre_handshake c.self.state || is_reactivating c.self.state
      then (push_datagram src_path_id (encode_frame MessageType.hello_ack c.self.cid []) (record c {
        self = record (c.self) { state = established; last_server_msr_at_ms = some now_ms };
      })
          >>= λ c1. done (schedule_client_timers now_ms (push_event event c1)))
      else done c

  unfoldable pub server_on_hello_ack : ℕ → Ctx → Outcome
  server_on_hello_ack now_ms c =
      if is_pre_handshake c.self.state
      then done (
          schedule_server_timers now_ms
            (push_event Event.handshake_established (set_state established c)))
      else done c

  -- `match frame.message_type` of `on_datagram`.
  unfoldable pub dispatch : MessageType → ℕ → ℕ → WireFrame → Ctx → Outcome
  dispatch MessageType.client_hello now_ms src_path_id frame c =
      if is_server c.self.role then server_on_client_hello now_ms src_path_id c else done c
  dispatch MessageType.server_hello now_ms src_path_id frame c =
      if is_client c.self.role then client_on_server_hello now_ms src_path_id c else done c
  dispatch MessageType.hello_ack now_ms src_path_id frame c =
      if is_server c.self.role then server_on_hello_ack now_ms c else done c
  dispatch MessageType.msr now_ms src_path_id frame c = handle_msr now_ms src_path_id frame c
  dispatch MessageType.request_range now_ms src_path_id frame c =
      if is_established c.self.state
      then handle_request_range src_path_id frame.payload c
      else done c
  dispatch MessageType.data_frame now_ms src_path_id frame c =
      if is_established c.self.state then handle_data frame.payload c else done c
  dispatch MessageType.fragment now_ms src_path_id frame c =
      if is_established c.self.state then handle_fragment frame.payload c else done c
  dispatch MessageType.error now_ms src_path_id frame c =
      done (push_event Event.disconnected (set_state lost c))
  dispatch MessageType.close now_ms src_path_id frame c =
      done (push_event Event.disconnected (set_state lost c))

  -- The signal TLV on a frame that is no MSR.
  unfoldable pub piggyback : ℕ → ℕ → WireFrame → Ctx → Outcome
  piggyback now_ms src_path_id frame c =
      if is_msr frame.message_type then done c else elim (find_msr_signal_tlv frame.tlvs) [
        | none ↦ done c
        | some (_, next_pending) ↦ handle_msr_signal now_ms src_path_id next_pending piggyback_tlv c
      ]

  -- The machine after a datagram of its session came in, before the message is looked at.
  unfoldable pub receive : ℕ → ℕ → CoreMachine → CoreMachine
  receive now_ms src_path_id self =
      on_valid_peer_datagram now_ms
        (touch_disconnect_deadline now_ms (record self { current_path_id = src_path_id }))

  unfoldable pub on_frame :
      ℕ → ℕ → WireFrame → CoreMachine → CoreMachine × Result CoreError CoreOutput
  on_frame now_ms src_path_id frame self =
      if not (self.cid == 0) && not (frame.cid == self.cid)
      then (self, err (cid_mismatch self.cid frame.cid))
      else finish (
          dispatch frame.message_type now_ms src_path_id frame
            (start (receive now_ms src_path_id self))
          >>= piggyback now_ms src_path_id frame)

  unfoldable pub on_datagram :
      ℕ → ℕ → List ℕ → CoreMachine → CoreMachine × Result CoreError CoreOutput
  on_datagram now_ms src_path_id bytes self = elim (decode bytes) [
    | err _ ↦ (self, ok (record no_output { events = Event.parse_error ∷ [] }))
    | ok frame ↦ on_frame now_ms src_path_id frame self
  ]
