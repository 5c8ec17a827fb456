-- ===== src/Wire/RoundTrip.antt =====
-- `decode` after `encode` (v3-wire/src/lib.rs).
use todero_protocol_native.Base.{
  ℕ, ◌+◌, ◌%◌, ◌^◌, ◌≤◌, ◌<◌, ◌≡◌, refl, sym, ◌∙◌, ap, true, false, List, [], ◌∷◌, ◌++◌, ok, err,
  arith, length, length-append, All, take_append, take-length, drop_append, le→ltb_false, ◌==◌,
  ==_refl,
}
use todero_protocol_native.Base.Words.{
  to_be_bytes, IsByte, IsU64, length-to_be_bytes, from_be_bytes-to_be_bytes, to_be_bytes_byte,
}
use todero_protocol_native.Wire.Buffer.{Buf}
use todero_protocol_native.Wire.{
  wire_version_v3, max_tlv_count, max_payload_len, to_u8, from_u8, MessageType, Tlv, WireFrame,
  length_mismatch, encode, decode,
}
use todero_protocol_native.Wire.Encode.{tlvs_bytes, frame_bytes, IsEncodable, IsShort, encode_lem}
use todero_protocol_native.Wire.Decode.{decode_lem, decode_rest}
use todero_protocol_native.Wire.Loop.{IsTlv, decode_tlvs-tlvs_bytes}

-- A frame whose fields are in the range of their types and which a datagram can carry.
pub record IsFrame (f : WireFrame) : Type 0 where
  pub version_v3 : f.version ≡ wire_version_v3
  pub flags_byte : IsByte f.flags
  pub cid_u64 : IsU64 f.cid
  pub payload_bytes : All IsByte f.payload
  pub payload_fits : length f.payload < max_payload_len
  pub tlvs_good : All IsTlv f.tlvs
  pub count_fits : length f.tlvs ≤ max_tlv_count
  pub block_fits : length (tlvs_bytes f.tlvs) ≤ 0xffff

All-IsShort : (tlvs : List Tlv) → All IsTlv tlvs → All IsShort tlvs
All-IsShort [] h = tt
All-IsShort (t ∷ ts) (h, hs) = (h.short, All-IsShort ts hs)

pub IsFrame-IsEncodable : {f : WireFrame} → IsFrame f → IsEncodable f
IsFrame-IsEncodable {f} h = record {
  version_v3 = h.version_v3;
  payload_fits = omega arith;
  count_fits = h.count_fits;
  values_fit = All-IsShort f.tlvs h.tlvs_good;
  block_fits = h.block_fits;
}

pub from_u8-to_u8 : (m : MessageType) → from_u8 (to_u8 m) ≡ ok m
unfolding from_u8 to_u8
from_u8-to_u8 MessageType.client_hello = refl
from_u8-to_u8 _ = refl

pub to_u8-IsByte : (m : MessageType) → IsByte (to_u8 m)
unfolding to_u8
to_u8-IsByte MessageType.client_hello = omega arith
to_u8-IsByte _ = omega arith

module _ ⦃buf : Buf⦄ where
  -- What `decode` makes of the bytes of a frame: the length field holds the payload's length
  -- modulo 2^16.
  decode-frame_bytes :
      (f : WireFrame)
      → f.version ≡ wire_version_v3
      → IsByte f.flags
      → IsU64 f.cid
      → length (tlvs_bytes f.tlvs) ≤ 0xffff
      → decode (frame_bytes f)
        ≡ decode_rest wire_version_v3
            (to_u8 f.message_type)
            f.flags
            f.cid
            (length f.payload % 2 ^ 16)
            (length (tlvs_bytes f.tlvs))
            (f.payload ++ tlvs_bytes f.tlvs)
  unfolding frame_bytes
  decode-frame_bytes f hv hf hc hb =
      let n = length f.payload % 2 ^ 16 in
      let b = length (tlvs_bytes f.tlvs) in
      let small : n < 2 ^ 16 = omega arith in
      rw (hv, to_be_bytes_byte wire_version_v3 (omega arith))
        (rw (to_be_bytes_byte (to_u8 f.message_type) (to_u8-IsByte f.message_type)) (
          rw (to_be_bytes_byte f.flags hf) (
            decode_lem wire_version_v3 (to_u8 f.message_type) f.flags (to_be_bytes 8 f.cid)
              (to_be_bytes 2 n) (to_be_bytes 2 b) (f.payload ++ tlvs_bytes f.tlvs)
              (length-to_be_bytes 8 f.cid) (length-to_be_bytes 2 n) (length-to_be_bytes 2 b)
            ∙ rw (from_be_bytes-to_be_bytes 8 f.cid (omega arith)) (
                rw (from_be_bytes-to_be_bytes 2 n (omega arith))
                  (rw (from_be_bytes-to_be_bytes 2 b (omega arith)))))))

  -- A frame whose fields are in range, with a payload of less than 65536 bytes, is encoded, and its
  -- bytes are decoded to the same frame.
  pub decode-encode :
      (f : WireFrame) → IsFrame f → (bs : List ℕ) × (encode f ≡ ok bs) × (decode bs ≡ ok f)
  unfolding decode_rest
  decode-encode f h =
      let block = tlvs_bytes f.tlvs in
      let n : length f.payload % 2 ^ 16 ≡ length f.payload = omega arith in
      let both : (length (f.payload ++ block) == length f.payload + length block) ≡ true =
        rw length-append (==_refl _) in
      let fits : length f.payload ≤ max_payload_len = omega arith in
      (
        frame_bytes f,
        encode_lem f (IsFrame-IsEncodable h),
        decode-frame_bytes f h.version_v3 h.flags_byte h.cid_u64 h.block_fits
            ∙ rw (n, from_u8-to_u8 f.message_type, le→ltb_false _ _ fits, both)
                (rw (drop_append f.payload block, take-length block, take_append f.payload block)
                  (rw (decode_tlvs-tlvs_bytes f.tlvs h.tlvs_good h.count_fits)
                    (ap (λ v. ok (record f { version = v })) (sym h.version_v3)))),
      )

  -- In a frame within the limits of `encode`, with flags of a byte and an id of 64 bits, a payload of
  -- exactly 65536 bytes is written with a length of 0, and `decode` refuses what `encode` returned.
  pub encode-payload_65536 :
      (f : WireFrame)
      → IsEncodable f
      → IsByte f.flags
      → IsU64 f.cid
      → length f.payload ≡ max_payload_len
      → (bs : List ℕ) × (encode f ≡ ok bs)
        × (decode bs
            ≡ err (
                length_mismatch
                  (max_payload_len + length (tlvs_bytes f.tlvs))
                  (length (tlvs_bytes f.tlvs))))
  unfolding decode_rest
  encode-payload_65536 f h hf hc hp =
      let block = tlvs_bytes f.tlvs in
      let n : length f.payload % 2 ^ 16 ≡ 0 = omega arith in
      let size : length (f.payload ++ block) ≡ max_payload_len + length block =
        length-append f.payload block ∙ ap (λ k. k + length block) hp in
      let off : (max_payload_len + length block == 0 + length block) ≡ false = ground arith in
      let zero_sum : 0 + length block ≡ length block = omega arith in
      (
        frame_bytes f,
        encode_lem f h,
        decode-frame_bytes f h.version_v3 hf hc h.block_fits
            ∙ rw (n, from_u8-to_u8 f.message_type, size, off, zero_sum),
      )
