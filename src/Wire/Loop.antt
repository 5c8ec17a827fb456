-- ===== src/Wire/Loop.antt =====
-- `decode_tlvs` of v3-wire/src/lib.rs: its loop ends on every input, reads back what `encode` wrote,
-- and accepts nothing else.
use todero_protocol_native.Base.{
  ℕ, zero, suc, ◌+◌, ◌≤◌, ◌<◌, ◌≡◌, ◌≢◌, refl, sym, ◌∙◌, ap, inl, inr, List, [], ◌∷◌, ◌++◌,
  append_assoc, append-nil, Option, some, none, some-injective, Result, ok, err, arith, length,
  length-append, All, Result-cases, take_append, drop_append, le→ltb_false, All-append_left,
  All-append_right,
}
use todero_protocol_native.Base.Words.{
  to_be_bytes, from_be_bytes, IsByte, length-to_be_bytes, from_be_bytes-to_be_bytes,
  to_be_bytes-from_be_bytes, to_be_bytes_byte,
}
use todero_protocol_native.Wire.Buffer.{Buf}
use todero_protocol_native.Wire.{
  max_tlv_count, max_tlv_value_len, Tlv, WireError, malformed_tlv, decode_tlv, decode_tlvs_loop,
  decode_tlvs,
}
use todero_protocol_native.Wire.Encode.{tlv_bytes, tlvs_bytes, IsShort, length-tlv_bytes}
use todero_protocol_native.Wire.Decode.{tlv_rest, decode_tlv_lem, TlvRead, decode_tlv-eq-ok}

-- A TLV as the struct can hold it, with a value that a datagram may carry.
pub record IsTlv (t : Tlv) : Type 0 where
  pub kind_byte : IsByte t.kind
  pub short : IsShort t
  pub value_bytes : All IsByte t.value

TlvRead-shorter :
    {input : List ℕ} {t : Tlv} {rest : List ℕ} → TlvRead input t rest → length rest < length input
TlvRead-shorter {t = t} {rest = rest} r =
    rw r.whole (omega (arith, length-append r.len (t.value ++ rest), length-append t.value rest))

TlvRead-tlv_bytes :
    {input : List ℕ} {t : Tlv} {rest : List ℕ}
    → TlvRead input t rest
    → All IsByte input
    → IsTlv t × All IsByte rest × (input ≡ tlv_bytes t ++ rest)
TlvRead-tlv_bytes {input} {t} {rest} r bytes =
    let whole = r.whole in
    let (kind, more) : All IsByte (t.kind ∷ (r.len ++ (t.value ++ rest))) = rw whole at bytes in
    let len_bytes = All-append_left IsByte r.len _ more in
    let tail = All-append_right IsByte r.len _ more in
    let len : to_be_bytes 2 (length t.value) ≡ r.len =
      rw (r.two, r.len_value) at (to_be_bytes-from_be_bytes r.len len_bytes) in
    (
      record {
        kind_byte = kind;
        short = r.short;
        value_bytes = All-append_left IsByte t.value rest tail;
      },
      All-append_right IsByte t.value rest tail,
      whole
          ∙ unfold tlv_bytes in
            rw (to_be_bytes_byte t.kind kind, len, append_assoc r.len t.value rest),
    )

err-ne-some_ok {ℓ} :
    {A : Type ℓ} {e : WireError} {a : A}
    → ◌≡◌ {A = Option (Result WireError A)} (some (err e)) (some (ok a))
    → ⊥
err-ne-some_ok p = cc

module _ ⦃buf : Buf⦄ where
  decode_tlvs_loop-ne-none :
      (fuel : ℕ) (input : List ℕ) (out : List Tlv)
      → length input ≤ fuel
      → decode_tlvs_loop fuel input out ≢ none
  unfolding decode_tlvs_loop
  decode_tlvs_loop-ne-none fuel [] out h = λ e. cc
  decode_tlvs_loop-ne-none zero (b ∷ bs) out h = absurd (omega arith)
  decode_tlvs_loop-ne-none (suc fuel) (b ∷ bs) out h =
      elim (Result-cases (decode_tlv (b ∷ bs) (length out))) [
        | inl ((t, rest), e) ↦
            let shorter = TlvRead-shorter (decode_tlv-eq-ok (b ∷ bs) (length out) e).1 in
            rw (e, decode_tlvs_loop)
              (decode_tlvs_loop-ne-none fuel rest (out ++ (t ∷ [])) (omega arith))
        | inr (x, e) ↦ rw (e, decode_tlvs_loop) (λ p. cc)
      ]

  -- The loop of `decode_tlvs` ends on every input: the fuel, the input's length, never runs out.
  pub decode_tlvs_terminates :
      (input : List ℕ) → decode_tlvs_loop (length input) input [] ≡ some (decode_tlvs input)
  unfolding decode_tlvs
  decode_tlvs_terminates input =
      from_some (decode_tlvs_loop-ne-none (length input) input [] (omega arith))
    where
      from_some :
          {r : Option (Result WireError (List Tlv))}
          → r ≢ none
          → r ≡ some (elim r [ some x ↦ x | none ↦ err malformed_tlv ])
      from_some {r = none} ne = absurd (ne refl)
      from_some {r = some x} ne = refl

  decode_tlvs_loop_step :
      (fuel : ℕ) (input : List ℕ) (out : List Tlv) {t : Tlv} {rest : List ℕ}
      → decode_tlv input (length out) ≡ ok (t, rest)
      → decode_tlvs_loop (suc fuel) input out ≡ decode_tlvs_loop fuel rest (out ++ (t ∷ []))
  unfolding decode_tlvs_loop
  decode_tlvs_loop_step fuel [] out e =
      absurd (omega (arith, TlvRead-shorter (decode_tlv-eq-ok [] (length out) e).1))
  decode_tlvs_loop_step fuel (b ∷ bs) out e = rw (e, decode_tlvs_loop)

  decode_tlv-tlv_bytes :
      (t : Tlv) (rest : List ℕ) (count : ℕ)
      → IsTlv t
      → count < max_tlv_count
      → decode_tlv (tlv_bytes t ++ rest) count ≡ ok (t, rest)
  unfolding tlv_bytes
  decode_tlv-tlv_bytes t rest count h room =
      let n = length t.value in
      let len = to_be_bytes 2 n in
      let there : n ≤ length (t.value ++ rest) = omega (arith, length-append t.value rest) in
      let short : n ≤ max_tlv_value_len = h.short in
      let read : from_be_bytes len ≡ n = from_be_bytes-to_be_bytes 2 n (omega arith) in
      rw (to_be_bytes_byte t.kind h.kind_byte, append_assoc len t.value rest)
        (decode_tlv_lem t.kind len (t.value ++ rest) count (length-to_be_bytes 2 n) room
          ∙ rw read (
              unfold tlv_rest in
              rw (le→ltb_false _ _ short, le→ltb_false _ _ there)
                (rw (take_append t.value rest, drop_append t.value rest))))

  -- The loop reads back the TLVs that `encode` wrote, up to 64 of them.
  pub decode_tlvs_loop-tlvs_bytes :
      (tlvs out : List Tlv) (fuel : ℕ)
      → All IsTlv tlvs
      → length out + length tlvs ≤ max_tlv_count
      → length (tlvs_bytes tlvs) ≤ fuel
      → decode_tlvs_loop fuel (tlvs_bytes tlvs) out ≡ some (ok (out ++ tlvs))
  unfolding tlvs_bytes
  decode_tlvs_loop-tlvs_bytes [] out fuel h room hf = unfold decode_tlvs_loop in rw (append-nil out)
  decode_tlvs_loop-tlvs_bytes (t ∷ ts) out zero h room hf =
      absurd (omega (arith, length-append (tlv_bytes t) (tlvs_bytes ts), length-tlv_bytes t))
  decode_tlvs_loop-tlvs_bytes (t ∷ ts) out (suc fuel) (h, hs) room hf =
      let len = length-append (tlv_bytes t) (tlvs_bytes ts) in
      let one = length-append out (t ∷ []) in
      decode_tlvs_loop_step fuel (tlv_bytes t ++ tlvs_bytes ts) out
        (decode_tlv-tlv_bytes t (tlvs_bytes ts) (length out) h (omega arith))
      ∙ decode_tlvs_loop-tlvs_bytes ts (out ++ (t ∷ [])) fuel hs (omega arith)
          (omega (arith, length-tlv_bytes t))
      ∙ rw (append_assoc out (t ∷ []) ts)

  -- Bytes that the loop accepts are those that `encode` writes for the TLVs that it returns.
  pub decode_tlvs_loop-eq-ok :
      (fuel : ℕ) (input : List ℕ) (out : List Tlv) {result : List Tlv}
      → decode_tlvs_loop fuel input out ≡ some (ok result)
      → All IsByte input
      → length out ≤ max_tlv_count
      → (tlvs : List Tlv) × (result ≡ out ++ tlvs)
        × (input ≡ tlvs_bytes tlvs)
        × All IsTlv tlvs
        × (length out + length tlvs ≤ max_tlv_count)
  unfolding tlvs_bytes decode_tlvs_loop
  decode_tlvs_loop-eq-ok fuel [] out h bytes room =
      ([], unfold decode_tlvs_loop in cc (append-nil out), refl, tt, omega arith)
  decode_tlvs_loop-eq-ok zero (b ∷ bs) out h bytes room = absurd (unfold decode_tlvs_loop in cc)
  decode_tlvs_loop-eq-ok (suc fuel) (b ∷ bs) out h bytes room =
      elim (Result-cases (decode_tlv (b ∷ bs) (length out))) [
        | inl ((t, rest), e) ↦
            let (below, read) = decode_tlv-eq-ok (b ∷ bs) (length out) e in
            let (good, rest_bytes, whole) = TlvRead-tlv_bytes read bytes in
            let one = length-append out (t ∷ []) in
            let (tlvs, e1, e2, goods, bound) =
              decode_tlvs_loop-eq-ok fuel rest (out ++ (t ∷ []))
                (sym (decode_tlvs_loop_step fuel (b ∷ bs) out e) ∙ h) rest_bytes (omega arith) in
            (
              t ∷ tlvs,
              e1 ∙ append_assoc out (t ∷ []) tlvs,
              whole ∙ ap (λ r. tlv_bytes t ++ r) e2,
              (good, goods),
              omega arith,
            )
        | inr (x, e) ↦ absurd (err-ne-some_ok (rw (e, decode_tlvs_loop) at h))
      ]

  -- The same for the whole of `decode_tlvs`.
  pub decode_tlvs-eq-ok :
      (input : List ℕ) {tlvs : List Tlv}
      → decode_tlvs input ≡ ok tlvs
      → All IsByte input
      → (input ≡ tlvs_bytes tlvs) × All IsTlv tlvs × (length tlvs ≤ max_tlv_count)
  decode_tlvs-eq-ok input h bytes =
      let (tlvs, e, e', goods, bound) =
        decode_tlvs_loop-eq-ok (length input) input [] (decode_tlvs_terminates input ∙ ap some h)
          bytes (omega arith) in
      rw e (e', goods, omega arith)

  pub decode_tlvs-tlvs_bytes :
      (tlvs : List Tlv)
      → All IsTlv tlvs
      → length tlvs ≤ max_tlv_count
      → decode_tlvs (tlvs_bytes tlvs) ≡ ok tlvs
  decode_tlvs-tlvs_bytes tlvs h room =
      let bytes = tlvs_bytes tlvs in
      let read = decode_tlvs_loop-tlvs_bytes tlvs [] (length bytes) h (omega arith) (omega arith) in
      some-injective (sym (decode_tlvs_terminates bytes) ∙ read)
