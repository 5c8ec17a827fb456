-- ===== src/Wire/Decode.antt =====
-- `WireFrame::decode` and `decode_tlvs` of v3-wire/src/lib.rs: each reads the fields at their places,
-- and the loop over the TLVs ends.
use todero_protocol_native.Base.{
  ℕ, suc, ◌+◌, ◌≤◌, ◌<◌, ◌≡◌, sym, inl, inr, List, [], ◌∷◌, ◌++◌, Result, ok, arith, length,
  length-append, Bool-cases, ltb, le→ltb_false, lt→leb_false, ==_iff, ok-injective, leb, split,
  refuse_if-eq-ok, ap, take, drop, length-take, take-append-drop, ltb_false→le, not, refuse_if,
  ◌==◌, ◌>>=◌, ◌>>◌,
}
use mathlib.Core.Path.{subst}
use todero_protocol_native.Base.Words.{from_be_bytes}
use todero_protocol_native.Wire.Buffer.{Buf}
use todero_protocol_native.Wire.{
  wire_version_v3, max_tlv_count, max_tlv_value_len, max_payload_len, header_len, from_u8, Tlv,
  WireFrame, WireError, tlv_too_large, malformed_tlv, unsupported_version, payload_too_large,
  length_mismatch, decode_tlv, decode_tlvs, decode,
}

-- What one round of the loop over the TLVs makes of its input, past the kind and the length.
unfoldable pub tlv_rest : ℕ → ℕ → List ℕ → Result WireError (Tlv × List ℕ)
tlv_rest kind len rest = do
  refuse_if (ltb max_tlv_value_len len) (tlv_too_large len)
  refuse_if (ltb (length rest) len) malformed_tlv
  ok (record { kind = kind; value = take len rest }, drop len rest)

-- What a successful round has read: a kind, a length of two bytes and a value of that length.
pub record TlvRead (input : List ℕ) (t : Tlv) (rest : List ℕ) : Type 0 where
  pub len : List ℕ
  pub two : length len ≡ 2
  pub len_value : from_be_bytes len ≡ length t.value
  pub short : length t.value ≤ max_tlv_value_len
  pub whole : input ≡ t.kind ∷ (len ++ (t.value ++ rest))

tlv_rest-eq-ok :
    (kind : ℕ) (len bs : List ℕ) {t : Tlv} {rest : List ℕ}
    → length len ≡ 2
    → tlv_rest kind (from_be_bytes len) bs ≡ ok (t, rest)
    → TlvRead (kind ∷ (len ++ bs)) t rest
unfolding tlv_rest
tlv_rest-eq-ok kind len bs two h =
    let n = from_be_bytes len in
    let (short, h1) = refuse_if-eq-ok (ltb max_tlv_value_len n) _ _ h in
    let (there, h2) = refuse_if-eq-ok (ltb (length bs) n) _ _ h1 in
    let e : length (take n bs) ≡ n = omega (arith, length-take n bs, ltb_false→le _ _ there) in
    subst (λ (p : Tlv × List ℕ). TlvRead (kind ∷ (len ++ bs)) p.0 p.1) (ok-injective h2)
      (record {
        len = len;
        two = two;
        len_value = sym e;
        short = omega (arith, ltb_false→le _ _ short);
        whole = ap (λ b. kind ∷ (len ++ b)) (sym (take-append-drop n bs));
      })

module _ ⦃buf : Buf⦄ where
  open buf use {
    get_u8_law, get_u16_law, get_u64_law, copy_to_slice_law, remaining_law, copy_to_slice,
  }

  copy_to_slice_lem :
      (n : ℕ) (bs : List ℕ) → n ≤ length bs → copy_to_slice n bs ≡ (take n bs, drop n bs)
  copy_to_slice_lem n bs h =
      let e : length (take n bs) ≡ n = omega (arith, length-take n bs) in
      let law : copy_to_slice (length (take n bs)) (take n bs ++ drop n bs)
          ≡ (take n bs, drop n bs) =
        copy_to_slice_law (take n bs) (drop n bs) in
      rw (e, take-append-drop n bs) at law

  pub decode_tlv_lem :
      (kind : ℕ) (len rest : List ℕ) (count : ℕ)
      → length len ≡ 2
      → count < max_tlv_count
      → decode_tlv (kind ∷ (len ++ rest)) count ≡ tlv_rest kind (from_be_bytes len) rest
  unfolding decode_tlv tlv_rest
  decode_tlv_lem kind len rest count two room =
      let enough : 3 ≤ suc (length (len ++ rest)) = omega (arith, length-append len rest) in
      rw (le→ltb_false _ _ enough, lt→leb_false _ _ room, get_u8_law, get_u16_law len _ two)
        (rw remaining_law (elim (Bool-cases (ltb (length rest) (from_be_bytes len))) [
          | inl short ↦ rw short
          | inr there ↦
              rw (there, copy_to_slice_lem (from_be_bytes len) rest (ltb_false→le _ _ there))
        ]))

  -- The checks and the results of `decode`, past the header's fields.
  unfoldable pub decode_rest : ℕ → ℕ → ℕ → ℕ → ℕ → ℕ → List ℕ → Result WireError WireFrame
  decode_rest version type_byte flags cid payload_len tlv_len rest = do
    refuse_if (not (version == wire_version_v3)) (unsupported_version version)
    message_type ← from_u8 type_byte
    refuse_if (ltb max_payload_len payload_len) (payload_too_large payload_len)
    refuse_if (not (length rest == payload_len + tlv_len))
        (length_mismatch (length rest) (payload_len + tlv_len))
    tlvs ← decode_tlvs (take tlv_len (drop payload_len rest))
    ok (record {
      version = version;
      message_type = message_type;
      flags = flags;
      cid = cid;
      payload = take payload_len rest;
      tlvs = tlvs;
    })

  -- `decode` reads the header's fields at their places.
  pub decode_lem :
      (version type_byte flags : ℕ) (cid payload_len tlv_len rest : List ℕ)
      → length cid ≡ 8
      → length payload_len ≡ 2
      → length tlv_len ≡ 2
      → decode (version ∷ type_byte ∷ flags ∷ (cid ++ (payload_len ++ (tlv_len ++ rest))))
        ≡ decode_rest version type_byte flags
            (from_be_bytes cid)
            (from_be_bytes payload_len)
            (from_be_bytes tlv_len)
            rest
  unfolding decode decode_rest
  decode_lem v t fl cid pl tl rest h8 h2 h2' =
      let enough : header_len ≤ suc (suc (suc (length (cid ++ (pl ++ (tl ++ rest)))))) = omega (
        arith,
        length-append cid (pl ++ (tl ++ rest)),
        length-append pl (tl ++ rest),
        length-append tl rest,
      ) in
      rw (le→ltb_false _ _ enough) (
        simp
          (
            get_u8_law,
            get_u64_law cid _ h8,
            get_u16_law pl _ h2,
            get_u16_law tl _ h2',
            remaining_law,
          )
          (elim (Bool-cases (length rest == from_be_bytes pl + from_be_bytes tl)) [
            | inl fits ↦ rw (
              fits,
              copy_to_slice_lem (from_be_bytes pl) rest (omega (arith, (==_iff _ _).0 fits)),
            )
            | inr off ↦ rw off
          ]))

  decode_tlv_guards :
      (input : List ℕ) (count : ℕ) {r : Tlv × List ℕ}
      → decode_tlv input count ≡ ok r
      → (3 ≤ length input) × (count < max_tlv_count)
  unfolding decode_tlv
  decode_tlv_guards input count h =
      let (long, h1) = refuse_if-eq-ok (ltb (length input) 3) _ _ h in
      let (room, _) = refuse_if-eq-ok (leb max_tlv_count count) _ _ h1 in
      (ltb_false→le _ _ long, ground arith)

  pub decode_tlv-eq-ok :
      (input : List ℕ) (count : ℕ) {t : Tlv} {rest : List ℕ}
      → decode_tlv input count ≡ ok (t, rest)
      → (count < max_tlv_count) × TlvRead input t rest
  decode_tlv-eq-ok [] count h = absurd (omega (arith, (decode_tlv_guards [] count h).0))
  decode_tlv-eq-ok (k ∷ bs) count {t} {rest} h =
      let (long, below) = decode_tlv_guards (k ∷ bs) count h in
      let (len, back, e, two) = split 2 bs (omega arith) in
      let read : tlv_rest k (from_be_bytes len) back ≡ ok (t, rest) =
        rw (e, decode_tlv_lem k len back count two below) at h in
      (below, rw e (tlv_rest-eq-ok k len back two read))
