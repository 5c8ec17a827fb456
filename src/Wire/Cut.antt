-- ===== src/Wire/Cut.antt =====
-- `decode` of v3-wire/src/lib.rs on a datagram that was cut.
use todero_protocol_native.Base.{
  ℕ, suc, ◌+◌, ◌-◌, ◌≡◌, sym, ◌∙◌, ap, inl, inr, true, false, List, ◌∷◌, ◌++◌, append_assoc, ok,
  err, arith, length, length-append, ltb_false→le, ltb, ◌==◌, le→ltb_false, Bool-cases,
  if◌then◌else◌,
}
use todero_protocol_native.Wire.Buffer.{Buf}
use todero_protocol_native.Wire.{header_len, WireFrame, truncated, length_mismatch, decode}
use todero_protocol_native.Wire.Decode.{decode_rest}
use todero_protocol_native.Wire.Canonical.{
  Header, read_header, decode-Header, Accepted, decode_rest-eq-ok,
}

longer_whole :
    {bs : List ℕ} (h : Header bs) (more : List ℕ)
    → bs ++ more
      ≡ h.version
        ∷ h.type_byte
        ∷ h.flags
        ∷ (h.cid ++ (h.payload_len ++ (h.tlv_len ++ (h.rest ++ more))))
longer_whole h more =
    ap (λ b. b ++ more) h.whole
    ∙ ap (λ r. h.version ∷ h.type_byte ∷ h.flags ∷ r)
        (append_assoc h.cid _ more
          ∙ ap (λ r. h.cid ++ r)
              (append_assoc h.payload_len _ more
                ∙ ap (λ r. h.payload_len ++ r) (append_assoc h.tlv_len h.rest more)))

-- The header of a datagram that goes on.
abbrev longer : {bs : List ℕ} → Header bs → (more : List ℕ) → Header (bs ++ more)
longer h more = record {
  version = h.version;
  type_byte = h.type_byte;
  flags = h.flags;
  cid = h.cid;
  payload_len = h.payload_len;
  tlv_len = h.tlv_len;
  rest = h.rest ++ more;
  eight = h.eight;
  two = h.two;
  two' = h.two';
  whole = longer_whole h more;
}

Header-length : {bs : List ℕ} (h : Header bs) → length bs ≡ header_len + length h.rest
Header-length h =
    ap length h.whole
    ∙ omega (
      arith,
      h.eight,
      h.two,
      h.two',
      length-append h.cid (h.payload_len ++ (h.tlv_len ++ h.rest)),
      length-append h.payload_len (h.tlv_len ++ h.rest),
      length-append h.tlv_len h.rest,
    )

module _ ⦃buf : Buf⦄ where
  decode_short : (bs : List ℕ) → ltb (length bs) header_len ≡ true → decode bs ≡ err truncated
  unfolding decode
  decode_short bs h = rw h

  cut_rest :
      (v t fl c pl tl : ℕ) (rest : List ℕ) (x : ℕ) (back : List ℕ) {f : WireFrame}
      → Accepted v t fl c pl tl (rest ++ (x ∷ back)) f
      → decode_rest v t fl c pl tl rest
        ≡ err (length_mismatch (length rest) (length rest + suc (length back)))
  unfolding decode_rest
  cut_rest v t fl c pl tl rest x back a =
      let size : pl + tl ≡ length rest + suc (length back) =
        sym a.sizes ∙ length-append rest (x ∷ back) in
      let off : (length rest == length rest + suc (length back)) ≡ false = ground arith in
      rw (a.version_v3, a.typed, le→ltb_false _ _ a.payload_fits, size, off)

  -- No proper front of an accepted datagram is accepted: it is too short for a header, or the
  -- header announces more bytes than are left.
  pub decode_cut :
      (front : List ℕ) (x : ℕ) (back : List ℕ) (f : WireFrame)
      → decode (front ++ (x ∷ back)) ≡ ok f
      → decode front ≡ (
          if ltb (length front) header_len
          then err truncated
          else err (
              length_mismatch
                (length front - header_len)
                (length front + suc (length back) - header_len)))
  decode_cut front x back f e = elim (Bool-cases (ltb (length front) header_len)) [
    | inl short ↦ rw short (decode_short front short)
    | inr long ↦
        let h = read_header front (ltb_false→le _ _ long) in
        let size = Header-length h in
        let left : length front - header_len ≡ length h.rest = omega arith in
        let wanted : length front + suc (length back) - header_len
            ≡ length h.rest + suc (length back) =
          omega arith in
        let a =
          decode_rest-eq-ok _ _ _ _ _ _ (h.rest ++ (x ∷ back))
            (sym (decode-Header (longer h (x ∷ back))) ∙ e) in
        rw (long, left, wanted) (decode-Header h ∙ cut_rest _ _ _ _ _ _ h.rest x back a)
  ]
