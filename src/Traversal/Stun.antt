-- ===== src/Traversal/Stun.antt =====
-- The STUN binding messages of v3-nat/src/lib.rs.
use Prim.Native.Nat.{bit_xor}
use todero_protocol_native.Base.{
  ℕ, zero, suc, ◌+◌, ◌*◌, ◌/◌, ◌^◌, ◌<◌, ◌≤◌, leb→le, ◌≡◌, refl, ap, sym, ◌∙◌, not, ◌||◌, List, [],
  ◌∷◌, ◌++◌, Result, ok, err, if◌then◌else◌, if-elim, Option, none, some, ltb, leb, ◌==◌, arith,
  length,
}
use todero_protocol_native.Base.Words.{to_be_bytes, from_be_bytes}
use todero_protocol_native.Core.Codec.{slice}
use todero_protocol_native.Traversal.Candidates.{IpAddr}

abbrev pub stun_magic_cookie : ℕ
stun_magic_cookie = 0x2112_a442

pub data NatError : Type 0 where
  invalid_stun_packet unsupported_stun_family : NatError

unfoldable pub stun_build_binding_request : List ℕ → List ℕ
stun_build_binding_request tx_id =
    0x00 ∷ 0x01 ∷ 0x00 ∷ 0x00 ∷ (to_be_bytes 4 stun_magic_cookie ++ tx_id)

-- `packet[i]`, which the code reads only below the packet's length
abbrev pub byte_at : ℕ → List ℕ → ℕ
byte_at i packet = from_be_bytes (slice i (i + 1) packet)

-- `u16::from_be_bytes([packet[i], packet[i + 1]])`
abbrev pub u16_at : ℕ → List ℕ → ℕ
u16_at i packet = from_be_bytes (slice i (i + 2) packet)

-- The XOR-MAPPED-ADDRESS attribute, whose value starts at `pos`.
unfoldable pub xor_mapped_address : ℕ → ℕ → List ℕ → Result NatError (IpAddr × ℕ)
xor_mapped_address pos attr_len packet =
    let port = bit_xor (u16_at (pos + 2) packet) (stun_magic_cookie / 2 ^ 16) in
    let ip =
      bit_xor (byte_at (pos + 4) packet) 0x21
      ∷ bit_xor (byte_at (pos + 5) packet) 0x12
      ∷ bit_xor (byte_at (pos + 6) packet) 0xa4
      ∷ bit_xor (byte_at (pos + 7) packet) 0x42
      ∷ [] in
    if ltb attr_len 8
    then err invalid_stun_packet
    else if not (byte_at (pos + 1) packet == 0x01)
    then err unsupported_stun_family
    else ok (IpAddr.v4 ip, port)

-- `(attr_len + 3) & !3`
abbrev pub padded : ℕ → ℕ
padded attr_len = (attr_len + 3) / 4 * 4

-- The `while` over the attributes, with fuel; `none` is no result of the program, the fuel ran out.
unfoldable pub attributes_loop : ℕ → ℕ → List ℕ → Option (Result NatError (IpAddr × ℕ))
attributes_loop zero pos packet = none
attributes_loop (suc fuel) pos packet =
    let attr_type = u16_at pos packet in
    let attr_len = u16_at (pos + 2) packet in
    let rest = attributes_loop fuel (pos + 4 + padded attr_len) packet in
    if leb (pos + 4) (length packet)
    then if ltb (length packet) (pos + 4 + attr_len)
      then some (err invalid_stun_packet)
      else if attr_type == 0x0020
      then some (xor_mapped_address (pos + 4) attr_len packet)
      else rest
    else some (err invalid_stun_packet)

-- A round moves on by 4 bytes at least, so the packet's length is enough fuel, and `none` is never
-- met.
unfoldable pub parse_attributes : List ℕ → Result NatError (IpAddr × ℕ)
parse_attributes packet = elim (attributes_loop (length packet) 20 packet) [
  | some r ↦ r
  | none ↦ err invalid_stun_packet
]

abbrev pub with_tx_id :
    List ℕ → Result NatError (IpAddr × ℕ) → Result NatError ((IpAddr × ℕ) × List ℕ)
with_tx_id tx_id (ok address) = ok (address, tx_id)
with_tx_id tx_id (err e) = err e

unfoldable pub stun_parse_binding_success : List ℕ → Result NatError ((IpAddr × ℕ) × List ℕ)
stun_parse_binding_success packet =
    if ltb (length packet) 20
    then err invalid_stun_packet
    else if not (byte_at 0 packet == 0x01) || not (byte_at 1 packet == 0x01)
    then err invalid_stun_packet
    else if ltb (length packet) (20 + u16_at 2 packet)
    then err invalid_stun_packet
    else if not (from_be_bytes (slice 4 8 packet) == stun_magic_cookie)
    then err invalid_stun_packet
    else with_tx_id (slice 8 20 packet) (parse_attributes packet)

abbrev Ends : Option (Result NatError (IpAddr × ℕ)) → Type 0
Ends o = (r : Result NatError (IpAddr × ℕ)) × (o ≡ some r)

-- From any position, the loop comes to a result on any fuel for the headers that the bytes left have
-- room for.
attributes_loop-Ends :
    (packet : List ℕ) (fuel pos : ℕ)
    → 0 < fuel
    → length packet < pos + 4 * fuel
    → Ends (attributes_loop fuel pos packet)
unfolding attributes_loop
attributes_loop-Ends packet zero pos k h = absurd (omega (arith, k))
attributes_loop-Ends packet (suc fuel) pos k h =
    let attr_len = u16_at (pos + 2) packet in
    if-elim Ends (leb (pos + 4) (length packet))
      (λ more.
        let room = leb→le (pos + 4) (length packet) more in
        if-elim Ends (ltb (length packet) (pos + 4 + attr_len)) (λ _. (_, refl))
          (λ _.
            if-elim Ends (u16_at pos packet == 0x0020) (λ _. (_, refl))
              (λ _.
                attributes_loop-Ends packet fuel (pos + 4 + padded attr_len)
                  (omega (arith, h, room)) (omega (arith, h)))))
      (λ _. (_, refl))

parse_attributes-eq :
    (packet : List ℕ) (r : Result NatError (IpAddr × ℕ))
    → attributes_loop (length packet) 20 packet ≡ some r
    → parse_attributes packet ≡ r
unfolding parse_attributes
parse_attributes-eq packet r e = rw (parse_attributes, e)

-- The loop over the attributes of a packet that has a header ends: the fuel, the packet's length,
-- does not run out.
pub attributes_loop_terminates :
    (packet : List ℕ)
    → 20 ≤ length packet
    → attributes_loop (length packet) 20 packet ≡ some (parse_attributes packet)
attributes_loop_terminates packet h =
    let (r, e) =
      attributes_loop-Ends packet (length packet) 20 (omega (arith, h)) (omega (arith, h)) in
    e ∙ ap some (sym (parse_attributes-eq packet r e))
