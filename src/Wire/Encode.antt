-- ===== src/Wire/Encode.antt =====
-- `WireFrame::encode` of v3-wire/src/lib.rs against the layout of a datagram, written without the
-- `bytes` crate.
use todero_protocol_native.Base.{
  ℕ, ◌+◌, ◌%◌, ◌^◌, ◌≤◌, ◌≡◌, sym, ◌∙◌, ◌↔◌, inl, inr, List, [], ◌∷◌, ◌++◌, append_assoc,
  append-nil, ok, arith, length, length-append, All, Bool-cases, ltb, >>=-eq-ok, refuse_if-eq-ok,
  err-ne-ok, ok-injective, ltb_false→le, le→ltb_false, ap,
}
use mathlib.Core.Path.{subst}
use todero_protocol_native.Base.Words.{to_be_bytes, length-to_be_bytes}
use todero_protocol_native.Wire.Buffer.{Buf}
use todero_protocol_native.Wire.{
  wire_version_v3, max_tlv_count, max_tlv_value_len, max_payload_len, header_len, to_u8, Tlv,
  WireFrame, validate_frame, encode_tlvs, encode,
}

unfoldable pub tlv_bytes : Tlv → List ℕ
tlv_bytes tlv = to_be_bytes 1 tlv.kind ++ (to_be_bytes 2 (length tlv.value) ++ tlv.value)

unfoldable pub tlvs_bytes : List Tlv → List ℕ
tlvs_bytes [] = []
tlvs_bytes (tlv ∷ tlvs) = tlv_bytes tlv ++ tlvs_bytes tlvs

-- The header's fields one after the other, the payload and the TLVs.
unfoldable pub frame_bytes : WireFrame → List ℕ
frame_bytes f =
    to_be_bytes 1 f.version
    ++ (to_be_bytes 1 (to_u8 f.message_type)
        ++ (to_be_bytes 1 f.flags
            ++ (to_be_bytes 8 f.cid
                ++ (to_be_bytes 2 (length f.payload % 2 ^ 16)
                    ++ (to_be_bytes 2 (length (tlvs_bytes f.tlvs))
                        ++ (f.payload ++ tlvs_bytes f.tlvs))))))

abbrev pub IsShort : Tlv → Type 0
IsShort tlv = length tlv.value ≤ max_tlv_value_len

-- What `encode` checks.
pub record IsEncodable (f : WireFrame) : Type 0 where
  pub version_v3 : f.version ≡ wire_version_v3
  pub payload_fits : length f.payload ≤ max_payload_len
  pub count_fits : length f.tlvs ≤ max_tlv_count
  pub values_fit : All IsShort f.tlvs
  pub block_fits : length (tlvs_bytes f.tlvs) ≤ 0xffff

pub length-tlv_bytes : (t : Tlv) → length (tlv_bytes t) ≡ 3 + length t.value
unfolding tlv_bytes
length-tlv_bytes t = simp (length-append, length-to_be_bytes) (omega arith)

pub length-frame_bytes :
    (f : WireFrame)
    → length (frame_bytes f) ≡ header_len + length f.payload + length (tlvs_bytes f.tlvs)
unfolding frame_bytes
length-frame_bytes f = simp (length-append, length-to_be_bytes) (omega arith)

module _ ⦃buf : Buf⦄ where
  open buf use {
    put_u8_law, put_u16_law, put_u64_law, extend_from_slice_law, extend_from_slice, put_u8, put_u16,
  }

  put_tlv_lem :
      (out : List ℕ) (t : Tlv)
      → IsShort t
      → extend_from_slice (put_u16 (put_u8 out t.kind) (length t.value % 2 ^ 16)) t.value
        ≡ out ++ tlv_bytes t
  unfolding tlv_bytes
  put_tlv_lem out t h =
      let e : length t.value % 2 ^ 16 ≡ length t.value = omega arith in
      simp (extend_from_slice_law, put_u16_law, put_u8_law, e, append_assoc)

  -- The loop of `encode` appends each TLV's kind, length and value, where the values are short.
  pub encode_tlvs_lem :
      (out : List ℕ) (tlvs : List Tlv)
      → All IsShort tlvs
      → encode_tlvs out tlvs ≡ ok (out ++ tlvs_bytes tlvs)
  unfolding encode_tlvs tlvs_bytes
  encode_tlvs_lem out [] h = ap ok (sym (append-nil out))
  encode_tlvs_lem out (t ∷ ts) (h, hs) =
      rw (le→ltb_false _ _ h, put_tlv_lem out t h)
        (encode_tlvs_lem (out ++ tlv_bytes t) ts hs ∙ ap ok (append_assoc out _ _))

  encode_tlvs-eq-ok :
      (tlvs : List Tlv) (out : List ℕ) {block : List ℕ}
      → encode_tlvs out tlvs ≡ ok block
      → All IsShort tlvs
  unfolding encode_tlvs
  encode_tlvs-eq-ok [] out h = tt
  encode_tlvs-eq-ok (t ∷ ts) out h = elim (Bool-cases (ltb max_tlv_value_len (length t.value))) [
    | inl long ↦ absurd (err-ne-ok (rw long at h))
    | inr short ↦ (ltb_false→le _ _ short, encode_tlvs-eq-ok ts _ (rw short at h))
  ]

  -- A frame that passes the checks is written as its bytes.
  pub encode_lem : (f : WireFrame) → IsEncodable f → encode f ≡ ok (frame_bytes f)
  unfolding encode validate_frame frame_bytes
  encode_lem f h =
      rw (h.version_v3, le→ltb_false _ _ h.payload_fits, le→ltb_false _ _ h.count_fits)
        (rw (encode_tlvs_lem [] f.tlvs h.values_fit, le→ltb_false _ _ h.block_fits)
          (simp
            (extend_from_slice_law, put_u16_law, put_u64_law, put_u8_law, block_len, append_assoc)))
    where
      block_len : length (tlvs_bytes f.tlvs) % 2 ^ 16 ≡ length (tlvs_bytes f.tlvs)
      block_len = omega (arith, h.block_fits)

  validate_frame-eq-ok :
      (f : WireFrame)
      → validate_frame f ≡ ok tt
      → (f.version ≡ wire_version_v3)
        × (length f.payload ≤ max_payload_len)
        × (length f.tlvs ≤ max_tlv_count)
  unfolding validate_frame
  validate_frame-eq-ok f h = ground arith

  encode-eq-ok : (f : WireFrame) {bs : List ℕ} → encode f ≡ ok bs → IsEncodable f
  unfolding encode
  encode-eq-ok f h =
      let (u, valid, h1) = >>=-eq-ok (validate_frame f) _ h in
      let (block, written, h2) = >>=-eq-ok (encode_tlvs [] f.tlvs) _ h1 in
      let (small, _) = refuse_if-eq-ok _ _ _ h2 in
      let short = encode_tlvs-eq-ok f.tlvs [] written in
      let e : block ≡ tlvs_bytes f.tlvs =
        ok-injective (sym written ∙ encode_tlvs_lem [] f.tlvs short) in
      let (v, p, c) = validate_frame-eq-ok f valid in
      record {
        version_v3 = v;
        payload_fits = p;
        count_fits = c;
        values_fit = short;
        block_fits = subst (λ b. length b ≤ 0xffff) e (ltb_false→le _ _ small);
      }

  -- `encode` succeeds exactly when the version is 3, the payload has at most 65536 bytes, there are
  -- at most 64 TLVs with values of at most 2048 bytes each, and their block has at most 65535
  -- bytes; its result is then the layout `frame_bytes`.
  pub encode_iff :
      (f : WireFrame) (bs : List ℕ) → (encode f ≡ ok bs) ↔ (IsEncodable f × (bs ≡ frame_bytes f))
  encode_iff f bs = (
    λ h. (encode-eq-ok f h, ok-injective (sym h ∙ encode_lem f (encode-eq-ok f h))),
    λ (h, e). encode_lem f h ∙ ap ok (sym e),
  )
