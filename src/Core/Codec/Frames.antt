-- ===== src/Core/Codec/Frames.antt =====
-- The frames that v3-core/src/lib.rs builds pass the checks of `WireFrame::encode`.
use todero_protocol_native.Base.{
  ℕ, ◌≤◌, ◌≡◌, refl, Bool, List, [], ◌∷◌, ok, arith, length, length-append,
}
use todero_protocol_native.Base.Words.{length-to_be_bytes}
use todero_protocol_native.Wire.Buffer.{Buf}
use todero_protocol_native.Wire.{MessageType, Tlv, max_payload_len, max_tlv_value_len}
use todero_protocol_native.Wire
use todero_protocol_native.Wire.Encode.{
  frame_bytes, tlvs_bytes, tlv_bytes, length-tlv_bytes, IsShort, encode_lem,
}
use todero_protocol_native.Core.Types.{TimerProposal}
use todero_protocol_native.Core.Codec.{
  encode_frame, encode_frame_with_tlvs, encode_msr_payload, encode_msr_signal_tlv, encode_range,
  encode_timer_proposal_tlv, encode_timer_ack_tlv,
}

pub length-encode_msr_payload :
    (acked next_pending : ℕ) → length (encode_msr_payload acked next_pending) ≡ 16
unfolding encode_msr_payload
length-encode_msr_payload a b = simp (length-append, length-to_be_bytes)

pub length-encode_range : (start end : ℕ) → length (encode_range start end) ≡ 16
unfolding encode_range
length-encode_range a b = simp (length-append, length-to_be_bytes)

pub signal_IsShort : (a b : ℕ) → IsShort (encode_msr_signal_tlv a b)
unfolding encode_msr_signal_tlv
signal_IsShort a b = omega (arith, length-encode_msr_payload a b)

pub proposal_IsShort : (id : ℕ) (p : TimerProposal) → IsShort (encode_timer_proposal_tlv id p)
unfolding encode_timer_proposal_tlv
proposal_IsShort id p = simp (length-append, length-to_be_bytes) (omega arith)

pub ack_IsShort : (id : ℕ) (accepted : Bool) → IsShort (encode_timer_ack_tlv id accepted)
unfolding encode_timer_ack_tlv
ack_IsShort id accepted = simp (length-append, length-to_be_bytes) (omega arith)

module _ ⦃buf : Buf⦄ where
  -- A frame with no TLV is encoded.
  pub encode_frame_lem :
      (m : MessageType) (cid : ℕ) (payload : List ℕ)
      → length payload ≤ max_payload_len
      → encode_frame m cid payload ≡ ok (frame_bytes (Wire.new m 0 cid payload []))
  unfolding encode_frame
  encode_frame_lem m cid payload h = rw (
      encode_lem (Wire.new m 0 cid payload []) (record {
        version_v3 = refl;
        payload_fits = h;
        count_fits = omega arith;
        values_fit = tt;
        block_fits = unfold tlvs_bytes in omega arith;
      }))

  -- So is a frame with one TLV.
  pub encode_frame_with_tlvs_lem :
      (m : MessageType) (cid : ℕ) (payload : List ℕ) (tlv : Tlv)
      → length payload ≤ max_payload_len
      → IsShort tlv
      → encode_frame_with_tlvs m cid payload (tlv ∷ [])
        ≡ ok (frame_bytes (Wire.new m 0 cid payload (tlv ∷ [])))
  unfolding encode_frame_with_tlvs
  encode_frame_with_tlvs_lem m cid payload tlv h short = rw (
      encode_lem (Wire.new m 0 cid payload (tlv ∷ [])) (record {
        version_v3 = refl;
        payload_fits = h;
        count_fits = omega arith;
        values_fit = (short, tt);
        block_fits =
            unfold tlvs_bytes in
            omega (arith, length-append (tlv_bytes tlv) [], length-tlv_bytes tlv);
      }))
