-- ===== src/Examples/Sessions.antt =====
-- The theorems of the session machine, at concrete inputs.
use todero_protocol_native.Base.{
  refl, ok, arith, ◌↔◌, ℕ, ◌+◌, ◌%◌, ◌^◌, ◌≡◌, List, [], ◌∷◌, ◌++◌, length, get_elem?, some,
}
use todero_protocol_native.Wire.{MessageType, WireFrame}
use todero_protocol_native.Wire
use todero_protocol_native.Core.Types.{
  TimerProposal, server, lost, established, CoreMachine, Ctx, TimerId, default_config, new,
}
use todero_protocol_native.Core.Handlers.{flush_ordered}
use todero_protocol_native.Core.Machine.{start, dispatch, piggyback, on_datagram}
use todero_protocol_native.Core.Flush.{Flushed, flush_ordered-Flushed}
use todero_protocol_native.Core.Delivery.{Handles}
use todero_protocol_native.Core.Lifecycle.{dispatch-Handles}
use todero_protocol_native.Core.Settled.{Settled, piggyback-Settled}
use todero_protocol_native.Core.Session.{Advances, on_datagram-Advances}
use todero_protocol_native.Core.Runs.{
  Call, call_datagram, call_timer, run, run-delivered, run_identity,
}
use todero_protocol_native.Core.Proposal.{validate_timer_proposal}
use todero_protocol_native.Core.Acceptance.{IsAcceptable, validate_timer_proposal_iff}
use todero_protocol_native.Base.Words.{from_be_bytes, from_be_loop, to_be_bytes}
use todero_protocol_native.Base.BTreeMap.{get, insert, remove, contains, insert_set}
use todero_protocol_native.Wire.{
  encode, encode_tlvs, validate_frame, to_u8, decode, decode_tlvs, decode_tlvs_loop, decode_tlv,
  from_u8,
}
use todero_protocol_native.Core.Runs.{perform}
use todero_protocol_native.Core.Session.{delivered_by}
use todero_protocol_native.Core.Flush.{delivered}
use todero_protocol_native.Core.Machine.{
  on_frame, receive, server_on_client_hello, server_on_hello_ack,
}
use todero_protocol_native.Core.Handlers.{
  on_valid_peer_datagram, handle_data, flush_loop, schedule_server_timers,
}
use todero_protocol_native.Core.Timers.{on_timer, server_msr_timer}
use todero_protocol_native.Core.Codec.{
  encode_frame, find_msr_signal_tlv, find_signal, encode_msr_payload,
}
use todero_protocol_native.Core.Silence.{fire_all, fire_all-lost}
use todero_protocol_native.Examples.{byte_lists}

abbrev cid_bytes : List ℕ
cid_bytes = 0 ∷ 0 ∷ 0 ∷ 0 ∷ 0 ∷ 0 ∷ 0 ∷ 7 ∷ []

abbrev hello : List ℕ
hello = (3 ∷ 1 ∷ 0 ∷ []) ++ (cid_bytes ++ (0 ∷ 0 ∷ 0 ∷ 0 ∷ []))

-- Message `id`, a single byte.
abbrev message : ℕ → List ℕ
message id =
    (3 ∷ 18 ∷ 0 ∷ []) ++ (cid_bytes ++ (0 ∷ 9 ∷ 0 ∷ 0 ∷ 0 ∷ 0 ∷ 0 ∷ 0 ∷ 0 ∷ 0 ∷ 0 ∷ id ∷ 42 ∷ []))

-- A handshake, message 2, a timer, and message 1 twice.
abbrev calls : List Call
calls =
    call_datagram 10 1 hello
    ∷ call_datagram 20 1 (message 2)
    ∷ call_timer 30 TimerId.server_msr
    ∷ call_datagram 40 1 (message 1)
    ∷ call_datagram 50 1 (message 1)
    ∷ []

abbrev fresh : CoreMachine
fresh = new server 7 default_config

-- Message 1 comes second and twice, and both are delivered once, in order.
calls_delivered : (run calls fresh).1 ≡ 1 ∷ 2 ∷ []
unfolding run perform delivered_by delivered on_datagram on_frame receive on_valid_peer_datagram
    dispatch piggyback handle_data flush_ordered flush_loop get insert remove contains insert_set
    server_on_client_hello server_on_hello_ack schedule_server_timers on_timer server_msr_timer
    encode_frame encode encode_tlvs validate_frame to_u8 decode decode_tlvs decode_tlvs_loop
    decode_tlv from_u8 from_be_bytes from_be_loop to_be_bytes find_msr_signal_tlv find_signal
    encode_msr_payload
calls_delivered = refl

run-delivered_example :
    ((run calls (new server 7 default_config)).0.last_ordered_rx
      ≡ length (run calls (new server 7 default_config)).1 % 2 ^ 64)
    × ((i id : ℕ)
        → get_elem? (run calls (new server 7 default_config)).1 i ≡ some id
        → id ≡ (i + 1) % 2 ^ 64)
run-delivered_example = run-delivered calls server 7 default_config

run_identity_example :
    ((run calls fresh).0.role ≡ server)
    × ((run calls fresh).0.cid ≡ 7)
    × (fresh.state ≡ lost → (run calls fresh).0.state ≡ lost)
run_identity_example = run_identity calls fresh

on_datagram-Advances_example : Advances fresh (on_datagram 10 1 hello fresh)
on_datagram-Advances_example = on_datagram-Advances 10 1 hello fresh

abbrev request : WireFrame
request = Wire.new MessageType.close 0 7 [] []

dispatch-Handles_example :
    Handles (start fresh) (dispatch MessageType.close 10 1 request (start fresh))
dispatch-Handles_example = dispatch-Handles MessageType.close 10 1 request (start fresh)

piggyback-Settled_example : Settled (piggyback 10 1 request (start fresh))
piggyback-Settled_example = piggyback-Settled 10 1 request (start fresh)

-- Messages 1, 2 and 4 wait.
abbrev waiting : Ctx
waiting = start (record fresh { received_buffer = (1, 42 ∷ []) ∷ (2, 43 ∷ []) ∷ (4, 44 ∷ []) ∷ [] })

flush_ordered-Flushed_example : Flushed waiting (flush_ordered waiting)
flush_ordered-Flushed_example = flush_ordered-Flushed waiting

abbrev faster : TimerProposal
faster = record { msr_interval_ms = 10_000; miss_window_count = 4; disconnect_window_ms = 100_000 }

validate_timer_proposal_example :
    (validate_timer_proposal default_config faster ≡ ok tt) ↔ IsAcceptable default_config faster
validate_timer_proposal_example = validate_timer_proposal_iff default_config faster

abbrev up : CoreMachine
up = record fresh { state = established; server_consecutive_msr_without_client_msr = 6 }

fire_all-lost_example :
    (fire_all
      ((10, TimerId.server_msr)
        ∷ (20, TimerId.disconnect)
        ∷ (30, TimerId.server_msr)
        ∷ (40, TimerId.server_msr)
        ∷ [])
      up).state
    ≡ lost
fire_all-lost_example =
    fire_all-lost
      ((10, TimerId.server_msr)
        ∷ (20, TimerId.disconnect)
        ∷ (30, TimerId.server_msr)
        ∷ (40, TimerId.server_msr)
        ∷ [])
      up refl refl (omega arith) (omega arith)
