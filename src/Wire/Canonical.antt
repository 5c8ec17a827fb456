-- ===== src/Wire/Canonical.antt =====
-- What `decode` of v3-wire/src/lib.rs accepts, and what it answers to the rest.
use todero_protocol_native.Base.{
  ℕ, ◌+◌, ◌%◌, ◌^◌, ◌≤◌, ◌<◌, ◌≡◌, refl, sym, ◌∙◌, ap, List, [], ◌∷◌, ◌++◌, ok, arith, length,
  length-append, All, take, drop, take-append-drop, length-take, length-drop, ltb_false→le, ltb,
  ◌==◌, split, not, >>=-eq-ok, refuse_if-eq-ok, ok-injective, All-append_left, All-append_right,
  take-length,
}
use todero_protocol_native.Base.Words.{
  from_be_bytes, IsByte, from_be_bytes-lt, to_be_bytes-from_be_bytes, to_be_bytes_byte,
}
use mathlib.Core.Path.{subst}
use todero_protocol_native.Wire.Buffer.{Buf}
use todero_protocol_native.Wire.{
  wire_version_v3, header_len, max_payload_len, to_u8, from_u8, MessageType, WireFrame, encode,
  decode, decode_tlvs,
}
use todero_protocol_native.Wire.Encode.{tlvs_bytes, frame_bytes, encode_lem}
use todero_protocol_native.Wire.Decode.{decode_lem, decode_rest}
use todero_protocol_native.Wire.Loop.{decode_tlvs-eq-ok}
use todero_protocol_native.Wire.RoundTrip.{IsFrame, IsFrame-IsEncodable, to_u8-IsByte}

from_u8-eq-ok : (b : ℕ) {m : MessageType} → from_u8 b ≡ ok m → b ≡ to_u8 m
unfolding from_u8 to_u8
from_u8-eq-ok b {m} h = ground arith

-- The bytes of a datagram with at least a header.
pub record Header (bs : List ℕ) : Type 0 where
  pub version : ℕ
  pub type_byte : ℕ
  pub flags : ℕ
  pub cid : List ℕ
  pub payload_len : List ℕ
  pub tlv_len : List ℕ
  pub rest : List ℕ
  pub eight : length cid ≡ 8
  pub two : length payload_len ≡ 2
  pub two' : length tlv_len ≡ 2
  pub whole : bs ≡ version ∷ type_byte ∷ flags ∷ (cid ++ (payload_len ++ (tlv_len ++ rest)))

pub read_header : (bs : List ℕ) → header_len ≤ length bs → Header bs
read_header [] h = absurd (omega arith)
read_header (v ∷ []) h = absurd (omega arith)
read_header (v ∷ t ∷ []) h = absurd (omega arith)
read_header (v ∷ t ∷ f ∷ bs) h =
    let (cid, bs1, e1, h1) = split 8 bs (omega arith) in
    let l1 : length bs ≡ 8 + length bs1 = ap length e1 ∙ omega (arith, length-append cid bs1) in
    let (pl, bs2, e2, h2) = split 2 bs1 (omega arith) in
    let l2 : length bs1 ≡ 2 + length bs2 = ap length e2 ∙ omega (arith, length-append pl bs2) in
    let (tl, bs3, e3, h3) = split 2 bs2 (omega arith) in
    record {
      version = v;
      type_byte = t;
      flags = f;
      cid = cid;
      payload_len = pl;
      tlv_len = tl;
      rest = bs3;
      eight = h1;
      two = h2;
      two' = h3;
      whole = ap (λ r. v ∷ t ∷ f ∷ r) (e1 ∙ ap (λ r. cid ++ r) (e2 ∙ ap (λ r. pl ++ r) e3));
    }

module _ ⦃buf : Buf⦄ where
  pub decode-Header :
      {bs : List ℕ} (h : Header bs)
      → decode bs
        ≡ decode_rest h.version h.type_byte h.flags
            (from_be_bytes h.cid)
            (from_be_bytes h.payload_len)
            (from_be_bytes h.tlv_len)
            h.rest
  decode-Header h =
      ap decode h.whole
      ∙ decode_lem h.version h.type_byte h.flags h.cid h.payload_len h.tlv_len h.rest h.eight h.two
          h.two'

  decode-long : (bs : List ℕ) {f : WireFrame} → decode bs ≡ ok f → header_len ≤ length bs
  unfolding decode
  decode-long bs h = ltb_false→le _ _ (refuse_if-eq-ok (ltb (length bs) header_len) _ _ h).0

  -- What a successful `decode_rest` has checked.
  pub record Accepted (version type_byte flags cid payload_len tlv_len : ℕ) (rest : List ℕ)
      (f : WireFrame) : Type 0 where
    pub version_v3 : version ≡ wire_version_v3
    pub typed : from_u8 type_byte ≡ ok f.message_type
    pub payload_fits : payload_len ≤ max_payload_len
    pub sizes : length rest ≡ payload_len + tlv_len
    pub tlvs_read : decode_tlvs (take tlv_len (drop payload_len rest)) ≡ ok f.tlvs
    pub rebuilt :
        f
        ≡ record f { version = version; flags = flags; cid = cid; payload = take payload_len rest }

  pub decode_rest-eq-ok :
      (v t fl c pl tl : ℕ) (rest : List ℕ) {f : WireFrame}
      → decode_rest v t fl c pl tl rest ≡ ok f
      → Accepted v t fl c pl tl rest f
  unfolding decode_rest
  decode_rest-eq-ok v t fl c pl tl rest {f} h =
      let (ver, h1) = refuse_if-eq-ok (not (v == wire_version_v3)) _ _ h in
      let (m, typed, h2) = >>=-eq-ok (from_u8 t) _ h1 in
      let (fits, h3) = refuse_if-eq-ok (ltb max_payload_len pl) _ _ h2 in
      let (size, h4) = refuse_if-eq-ok (not (length rest == pl + tl)) _ _ h3 in
      let (tlvs, read, h5) = >>=-eq-ok (decode_tlvs (take tl (drop pl rest))) _ h4 in
      subst (λ g. Accepted v t fl c pl tl rest g) (ok-injective h5)
        (record {
          version_v3 = ground arith;
          typed = typed;
          payload_fits = ltb_false→le _ _ fits;
          sizes = ground arith;
          tlvs_read = read;
          rebuilt = refl;
        })

  -- The frame that a successful `decode` returns has fields in range, and its layout is the input.
  rebuilt_IsFrame :
      {bs : List ℕ} (h : Header bs) {f : WireFrame}
      → Accepted h.version h.type_byte h.flags
          (from_be_bytes h.cid)
          (from_be_bytes h.payload_len)
          (from_be_bytes h.tlv_len)
          h.rest
          f
      → All IsByte bs
      → IsFrame f × (frame_bytes f ≡ bs)
  unfolding frame_bytes
  rebuilt_IsFrame {bs} h {f} a bytes =
      let P = from_be_bytes h.payload_len in
      let T = from_be_bytes h.tlv_len in
      let hb : All IsByte (
          h.version ∷ h.type_byte ∷ h.flags ∷ (h.cid ++ (h.payload_len ++ (h.tlv_len ++ h.rest)))) =
        rw h.whole at bytes in
      let b1 = hb.1.1.1 in
      let cb = All-append_left IsByte h.cid _ b1 in
      let b2 = All-append_right IsByte h.cid _ b1 in
      let pb = All-append_left IsByte h.payload_len _ b2 in
      let b3 = All-append_right IsByte h.payload_len _ b2 in
      let lb = All-append_left IsByte h.tlv_len _ b3 in
      let rb = All-append_right IsByte h.tlv_len _ b3 in
      let p16 : P < 256 ^ 2 = from_be_bytes-lt h.payload_len pb h.two in
      let t16 : T < 256 ^ 2 = from_be_bytes-lt h.tlv_len lb h.two' in
      let c64 : from_be_bytes h.cid < 256 ^ 8 = from_be_bytes-lt h.cid cb h.eight in
      let block = drop P h.rest in
      let payload = take P h.rest in
      let size : length payload ≡ P = omega (arith, length-take P h.rest, a.sizes) in
      let size' : length block ≡ T = omega (arith, length-drop P h.rest, a.sizes) in
      let parts : All IsByte (payload ++ block) = rw (take-append-drop P h.rest) rb in
      let read : decode_tlvs block ≡ ok f.tlvs = rw (← size', take-length block) at a.tlvs_read in
      let (layout, good, count) =
        decode_tlvs-eq-ok block read (All-append_right IsByte payload block parts) in
      let block_size : length (tlvs_bytes f.tlvs) ≡ T = rw (← layout) size' in
      let cid8 = to_be_bytes-from_be_bytes h.cid cb in
      let pl2 = to_be_bytes-from_be_bytes h.payload_len pb in
      let tl2 = to_be_bytes-from_be_bytes h.tlv_len lb in
      let n : length payload % 2 ^ 16 ≡ P = omega arith in
      subst (λ g. IsFrame g × (frame_bytes g ≡ bs)) (sym a.rebuilt)
        (
          record {
            version_v3 = a.version_v3;
            flags_byte = hb.1.1.0;
            cid_u64 = omega arith;
            payload_bytes = All-append_left IsByte payload block parts;
            payload_fits = omega arith;
            tlvs_good = good;
            count_fits = count;
            block_fits = omega arith;
          },
          sym (
              h.whole
              ∙ rw (
                to_be_bytes_byte h.version hb.0,
                to_be_bytes_byte h.flags hb.1.1.0,
                to_be_bytes_byte (to_u8 f.message_type) (to_u8-IsByte f.message_type),
                ← from_u8-eq-ok h.type_byte a.typed,
                n,
                block_size,
                rw h.eight at cid8,
                rw h.two at pl2,
                rw h.two' at tl2,
                ← layout,
                take-append-drop P h.rest,
              )),
        )

  -- Of inputs of bytes, `decode` accepts only canonical ones: a frame that it returns has all its
  -- fields in range, and `encode` gives back the input.
  pub encode-decode :
      (bs : List ℕ) (f : WireFrame)
      → All IsByte bs
      → decode bs ≡ ok f
      → IsFrame f × (encode f ≡ ok bs)
  encode-decode bs f bytes e =
      let h = read_header bs (decode-long bs e) in
      let (good, layout) =
        rebuilt_IsFrame h (decode_rest-eq-ok _ _ _ _ _ _ h.rest (sym (decode-Header h) ∙ e))
          bytes in
      (good, encode_lem f (IsFrame-IsEncodable good) ∙ ap ok layout)
