-- ===== src/Examples/Datagrams.antt =====
-- The theorems of the wire format and of the payloads, at concrete inputs.
use todero_protocol_native.Base.{
  ℕ, zero, suc, ◌+◌, ◌-◌, ◌≡◌, refl, ap, List, [], ◌∷◌, length, drop, All, ok, err, some, arith,
  ◌↔◌, if◌then◌else◌, ltb,
}
use todero_protocol_native.Base.Words.{IsByte, to_be_bytes, from_be_bytes, from_be_loop}
use todero_protocol_native.Wire.{
  MessageType, Tlv, WireFrame, WireError, truncated, length_mismatch, encode, decode,
  decode_tlvs_loop, decode_tlvs, decode_tlv, from_u8, validate_frame, max_payload_len, header_len,
}
use todero_protocol_native.Wire
use todero_protocol_native.Wire.Encode.{frame_bytes, tlvs_bytes, tlv_bytes, IsEncodable, encode_iff}
use todero_protocol_native.Wire.Loop.{decode_tlvs_terminates}
use todero_protocol_native.Wire.RoundTrip.{IsFrame, decode-encode, encode-payload_65536}
use todero_protocol_native.Wire.Canonical.{encode-decode}
use todero_protocol_native.Wire.Cut.{decode_cut}
use todero_protocol_native.Examples.{byte_lists}

abbrev ping_tlv : Tlv
ping_tlv = record { kind = 9; value = 255 ∷ [] }

-- A data frame with two bytes of payload and one TLV.
abbrev ping : WireFrame
ping = Wire.new MessageType.data_frame 0 7 (104 ∷ 105 ∷ []) (ping_tlv ∷ [])

abbrev ping_bytes : List ℕ
ping_bytes =
    3 ∷ 18 ∷ 0 ∷ 0 ∷ 0 ∷ 0 ∷ 0 ∷ 0 ∷ 0 ∷ 0 ∷ 7 ∷ 0 ∷ 2 ∷ 0 ∷ 4 ∷ 104 ∷ 105 ∷ 9 ∷ 0 ∷ 1 ∷ 255 ∷ []

ping-IsFrame : IsFrame ping
unfolding tlvs_bytes tlv_bytes to_be_bytes
ping-IsFrame = record {
  version_v3 = refl;
  flags_byte = omega arith;
  cid_u64 = omega arith;
  payload_bytes = (omega arith, (omega arith, tt));
  payload_fits = omega arith;
  tlvs_good = (
    record { kind_byte = omega arith; short = omega arith; value_bytes = (omega arith, tt) },
    tt,
  );
  count_fits = omega arith;
  block_fits = omega arith;
}

decode-encode_example : (bs : List ℕ) × (encode ping ≡ ok bs) × (decode bs ≡ ok ping)
decode-encode_example = decode-encode ping ping-IsFrame

ping_bytes-IsByte : All IsByte ping_bytes
ping_bytes-IsByte = ground arith

ping_decoded : decode ping_bytes ≡ ok ping
unfolding decode decode_tlvs decode_tlvs_loop decode_tlv from_u8 from_be_bytes from_be_loop
ping_decoded = refl

encode-decode_example : IsFrame ping × (encode ping ≡ ok ping_bytes)
encode-decode_example = encode-decode ping_bytes ping ping_bytes-IsByte ping_decoded

abbrev front : List ℕ
front = 3 ∷ 18 ∷ 0 ∷ []

abbrev tlv_block : List ℕ
tlv_block = 9 ∷ 0 ∷ 1 ∷ 255 ∷ []

decode_cut_example : decode front ≡ (
    if ltb (length front) header_len
    then err truncated
    else err (
        length_mismatch
          (length front - header_len)
          (length front + suc (length (drop 4 ping_bytes)) - header_len)))
decode_cut_example = decode_cut front 0 (drop 4 ping_bytes) ping ping_decoded

encode_iff_example :
    (encode ping ≡ ok ping_bytes) ↔ (IsEncodable ping × (ping_bytes ≡ frame_bytes ping))
encode_iff_example = encode_iff ping ping_bytes

decode_tlvs_terminates_example :
    decode_tlvs_loop (length tlv_block) tlv_block [] ≡ some (decode_tlvs tlv_block)
decode_tlvs_terminates_example = decode_tlvs_terminates tlv_block

unfoldable zeros : ℕ → List ℕ
zeros zero = []
zeros (suc n) = 0 ∷ zeros n

length-zeros : (n : ℕ) → length (zeros n) ≡ n
unfolding zeros
length-zeros zero = refl
length-zeros (suc n) = ap suc (length-zeros n)

-- A frame with a payload of 65536 bytes.
abbrev large : WireFrame
large = Wire.new MessageType.data_frame 0 7 (zeros 65536) []

large-IsEncodable : IsEncodable large
unfolding tlvs_bytes
large-IsEncodable = record {
  version_v3 = refl;
  payload_fits = omega (arith, length-zeros 65536);
  count_fits = omega arith;
  values_fit = tt;
  block_fits = omega arith;
}

encode-payload_65536_example :
    (bs : List ℕ) × (encode large ≡ ok bs)
    × (decode bs
        ≡ err (
            length_mismatch
              (max_payload_len + length (tlvs_bytes large.tlvs))
              (length (tlvs_bytes large.tlvs))))
encode-payload_65536_example =
    encode-payload_65536 large large-IsEncodable (omega arith) (omega arith) (length-zeros 65536)
