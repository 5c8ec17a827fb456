-- ===== src/Core/Codec.antt =====
-- The frames, payloads and TLVs of v3-core/src/lib.rs. `bytes[a..b]` is `slice a b bytes`.
pub mod RoundTrip
pub mod Frames
use todero_protocol_native.Base.{
  ℕ, zero, suc, ◌+◌, ◌-◌, Bool, true, false, not, ◌||◌, List, [], ◌∷◌, ◌++◌, Option, none, some,
  Result, ok, err, ltb, ◌==◌, if◌then◌else◌, length, take, drop,
}
use todero_protocol_native.Base.Words.{to_be_bytes, from_be_bytes}
use todero_protocol_native.Wire.Buffer.{Buf}
use todero_protocol_native.Wire.{MessageType, Tlv, WireError, encode}
use todero_protocol_native.Wire
use todero_protocol_native.Core.Types.{TimerProposal, CoreError, wire}

abbrev pub tlv_timer_proposal : ℕ
tlv_timer_proposal = 0x30

abbrev pub tlv_timer_ack : ℕ
tlv_timer_ack = 0x31

abbrev pub tlv_msr_signal : ℕ
tlv_msr_signal = 0x32

abbrev pub slice : ℕ → ℕ → List ℕ → List ℕ
slice a b bytes = take (b - a) (drop a bytes)

-- `bytes[i]`, which the program reads only where the length has been checked.
abbrev pub byte_at : List ℕ → ℕ → ℕ
byte_at [] i = 0
byte_at (b ∷ bs) zero = b
byte_at (b ∷ bs) (suc i) = byte_at bs i

-- `map_err(CoreError::Wire)`
abbrev pub map_wire : Result WireError (List ℕ) → Result CoreError (List ℕ)
map_wire (ok bytes) = ok bytes
map_wire (err e) = err (wire e)

module _ ⦃buf : Buf⦄ where
  unfoldable pub encode_frame_with_tlvs :
      MessageType → ℕ → List ℕ → List Tlv → Result CoreError (List ℕ)
  encode_frame_with_tlvs message_type cid payload tlvs =
      map_wire (encode (Wire.new message_type 0 cid payload tlvs))

  unfoldable pub encode_frame : MessageType → ℕ → List ℕ → Result CoreError (List ℕ)
  encode_frame message_type cid payload = map_wire (encode (Wire.new message_type 0 cid payload []))

unfoldable pub encode_msr_payload : ℕ → ℕ → List ℕ
encode_msr_payload acked next_pending = to_be_bytes 8 acked ++ to_be_bytes 8 next_pending

unfoldable pub decode_msr_payload : List ℕ → Option (ℕ × ℕ)
decode_msr_payload payload =
    if ltb (length payload) 16
    then none
    else some (from_be_bytes (slice 0 8 payload), from_be_bytes (slice 8 16 payload))

unfoldable pub encode_msr_signal_tlv : ℕ → ℕ → Tlv
unfolding encode_msr_payload
encode_msr_signal_tlv acked next_pending = record {
  kind = tlv_msr_signal;
  value = encode_msr_payload acked next_pending;
}

-- `tlvs.iter().find(|tlv| tlv.kind == TLV_MSR_SIGNAL)`
unfoldable pub find_signal : List Tlv → Option Tlv
find_signal [] = none
find_signal (tlv ∷ tlvs) = if tlv.kind == tlv_msr_signal then some tlv else find_signal tlvs

unfoldable pub find_msr_signal_tlv : List Tlv → Option (ℕ × ℕ)
unfolding find_signal
find_msr_signal_tlv tlvs = elim (find_signal tlvs) [
  | none ↦ none
  | some tlv ↦ decode_msr_payload tlv.value
]

unfoldable pub encode_range : ℕ → ℕ → List ℕ
encode_range start end = to_be_bytes 8 start ++ to_be_bytes 8 end

unfoldable pub decode_range : List ℕ → Option (ℕ × ℕ)
decode_range payload =
    if ltb (length payload) 16
    then none
    else some (from_be_bytes (slice 0 8 payload), from_be_bytes (slice 8 16 payload))

unfoldable pub encode_timer_proposal_tlv : ℕ → TimerProposal → Tlv
encode_timer_proposal_tlv proposal_id proposal = record {
  kind = tlv_timer_proposal;
  value =
      to_be_bytes 4 proposal_id
      ++ (to_be_bytes 8 proposal.msr_interval_ms
          ++ (to_be_bytes 8 proposal.miss_window_count
              ++ to_be_bytes 8 proposal.disconnect_window_ms));
}

unfoldable pub decode_timer_proposal_tlv : Tlv → Option (ℕ × TimerProposal)
decode_timer_proposal_tlv tlv =
    if not (tlv.kind == tlv_timer_proposal) || not (length tlv.value == 28)
    then none
    else some (
      from_be_bytes (slice 0 4 tlv.value),
      record {
        msr_interval_ms = from_be_bytes (slice 4 12 tlv.value);
        miss_window_count = from_be_bytes (slice 12 20 tlv.value);
        disconnect_window_ms = from_be_bytes (slice 20 28 tlv.value);
      },
    )

-- `u8::from(accepted)`
abbrev pub bool_byte : Bool → ℕ
bool_byte true = 1
bool_byte false = 0

unfoldable pub encode_timer_ack_tlv : ℕ → Bool → Tlv
encode_timer_ack_tlv proposal_id accepted = record {
  kind = tlv_timer_ack;
  value = to_be_bytes 4 proposal_id ++ (bool_byte accepted ∷ []);
}

unfoldable pub decode_timer_ack_tlv : Tlv → Option (ℕ × Bool)
decode_timer_ack_tlv tlv =
    if not (tlv.kind == tlv_timer_ack) || not (length tlv.value == 5)
    then none
    else let id = from_be_bytes (slice 0 4 tlv.value) in
      let flag = byte_at tlv.value 4 in
      if flag == 0 then some (id, false) else if flag == 1 then some (id, true) else none
