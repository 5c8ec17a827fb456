-- ===== src/Crypto/Amplification.antt =====
-- `AntiAmplificationGate` of v3-crypto/src/lib.rs.
use todero_protocol_native.Base.{
  ℕ, ◌+◌, ◌*◌, ◌<◌, ◌-◌, ◌^◌, ◌≤◌, ◌≡◌, refl, sym, inl, inr, Bool-cases, max, Bool, true, false,
  not, List, [], ◌∷◌, if◌then◌else◌, leb, arith,
}
use native.Mathlib.Nat.{mul-le-mul_left, mul-le-mul_right}
use todero_protocol_native.Base.Words.{saturating_add_u64, saturating_mul_u64}

pub record AntiAmplificationGate : Type 0 where
  pub bytes_in : ℕ
  pub bytes_out : ℕ
  pub amplification_factor : ℕ
  pub authenticated : Bool

abbrev pub new : ℕ → AntiAmplificationGate
new amplification_factor = record {
  bytes_in = 0;
  bytes_out = 0;
  amplification_factor = max amplification_factor 1;
  authenticated = false;
}

abbrev pub default : AntiAmplificationGate
default = new 3

unfoldable pub on_receive : ℕ → AntiAmplificationGate → AntiAmplificationGate
on_receive bytes self = record self { bytes_in = saturating_add_u64 self.bytes_in bytes }

-- What may be sent in all before the peer is authenticated.
abbrev pub allowed : AntiAmplificationGate → ℕ
allowed self = saturating_mul_u64 self.bytes_in self.amplification_factor

unfoldable pub can_send : ℕ → AntiAmplificationGate → Bool
can_send bytes self =
    if self.authenticated
    then true
    else leb (saturating_add_u64 self.bytes_out bytes) (allowed self)

unfoldable pub on_send : ℕ → AntiAmplificationGate → Bool × AntiAmplificationGate
on_send bytes self =
    if not (can_send bytes self)
    then (false, self)
    else (true, record self { bytes_out = saturating_add_u64 self.bytes_out bytes })

unfoldable pub mark_authenticated : AntiAmplificationGate → AntiAmplificationGate
mark_authenticated self = record self { authenticated = true }

-- The calls before the peer is authenticated, with their numbers of bytes.
pub data Traffic : Type 0 where
  receives sends : ℕ → Traffic

-- The bytes received in all.
abbrev pub received_bytes : List Traffic → ℕ
received_bytes [] = 0
received_bytes (receives bytes ∷ ts) = bytes + received_bytes ts
received_bytes (sends bytes ∷ ts) = received_bytes ts

-- The bytes of the sends that the gate lets through, by what `on_send` returns.
unfoldable pub sent_bytes : List Traffic → AntiAmplificationGate → ℕ
sent_bytes [] self = 0
sent_bytes (receives bytes ∷ ts) self = sent_bytes ts (on_receive bytes self)
sent_bytes (sends bytes ∷ ts) self =
    let r = on_send bytes self in let rest = sent_bytes ts r.1 in if r.0 then bytes + rest else rest

-- The counters of a gate that has not met the authenticated peer: what came in, and no more sent than
-- that times the factor, with room for `more` bytes before the limit itself saturates.
record IsBounded (more : ℕ) (self : AntiAmplificationGate) : Type 0 where
  waiting : self.authenticated ≡ false
  room : (self.bytes_in + more) * self.amplification_factor < 2 ^ 64 - 1
  positive : 1 ≤ self.amplification_factor
  bounded : self.bytes_out ≤ self.bytes_in * self.amplification_factor

can_send-le :
    (bytes : ℕ) (self : AntiAmplificationGate)
    → self.authenticated ≡ false
    → can_send bytes self ≡ true
    → saturating_add_u64 self.bytes_out bytes ≤ allowed self
unfolding can_send
can_send-le bytes self w e = ground arith

receive_lem :
    (bytes more : ℕ) (self : AntiAmplificationGate)
    → IsBounded (bytes + more) self
    → (saturating_add_u64 self.bytes_in bytes ≡ self.bytes_in + bytes)
      × IsBounded more (record self { bytes_in = self.bytes_in + bytes })
receive_lem bytes more self h =
    let total = self.bytes_in + (bytes + more) in
    let fits : total * 1 ≤ total * self.amplification_factor = mul-le-mul_left total h.positive in
    let same : self.bytes_in + bytes + more ≡ total = omega arith in
    let grown : self.bytes_in ≤ self.bytes_in + bytes = omega arith in
    (
      omega (arith, h.room, fits),
      record {
        waiting = h.waiting;
        room = rw same h.room;
        positive = h.positive;
        bounded = omega (arith, h.bounded, mul-le-mul_right self.amplification_factor grown);
      },
    )

-- A send that is let through keeps the sum below what came in times the factor: the limit is that
-- product, which does not saturate.
send_lem :
    (bytes more : ℕ) (self : AntiAmplificationGate)
    → IsBounded more self
    → can_send bytes self ≡ true
    → (saturating_add_u64 self.bytes_out bytes ≡ self.bytes_out + bytes)
      × IsBounded more (record self { bytes_out = self.bytes_out + bytes })
send_lem bytes more self h e =
    let in_all : self.bytes_in ≤ self.bytes_in + more = omega arith in
    let limit = mul-le-mul_right self.amplification_factor in_all in
    let below = can_send-le bytes self h.waiting e in
    (
      omega (arith, h.room, limit, below),
      record {
        waiting = h.waiting;
        room = h.room;
        positive = h.positive;
        bounded = omega (arith, h.room, limit, below);
      },
    )

sent_bytes-le :
    (ts : List Traffic) (self : AntiAmplificationGate)
    → IsBounded (received_bytes ts) self
    → self.bytes_out + sent_bytes ts self
      ≤ (self.bytes_in + received_bytes ts) * self.amplification_factor
unfolding sent_bytes on_send on_receive
sent_bytes-le [] self h = omega (arith, h.bounded)
sent_bytes-le (receives bytes ∷ ts) self h =
    let (counted, next) = receive_lem bytes (received_bytes ts) self h in
    let same : self.bytes_in + bytes + received_bytes ts
        ≡ self.bytes_in + (bytes + received_bytes ts) =
      omega arith in
    rw (counted, sym same)
      (sent_bytes-le ts (record self { bytes_in = self.bytes_in + bytes }) next)
sent_bytes-le (sends bytes ∷ ts) self h = elim (Bool-cases (can_send bytes self)) [
  | inr e ↦ rw e (sent_bytes-le ts self h)
  | inl e ↦
      let (counted, next) = send_lem bytes (received_bytes ts) self h e in
      let rest = sent_bytes-le ts (record self { bytes_out = self.bytes_out + bytes }) next in
      rw (e, counted) (omega (arith, rest))
]

-- As long as the peer is not authenticated, whatever is received and asked to be sent in whatever
-- order, the datagrams that a new gate lets out have no more bytes together than those received times
-- its factor, which counts as 1 where it is 0. That product stays below the largest 64-bit number,
-- at which the gate's limit saturates.
pub sent_bytes-new :
    (ts : List Traffic) (factor : ℕ)
    → received_bytes ts * max factor 1 < 2 ^ 64 - 1
    → sent_bytes ts (new factor) ≤ received_bytes ts * max factor 1
sent_bytes-new ts factor h =
    let all_in : 0 + received_bytes ts ≡ received_bytes ts = omega arith in
    let sent : 0 + sent_bytes ts (new factor) ≡ sent_bytes ts (new factor) = omega arith in
    let start : IsBounded (received_bytes ts) (new factor) = record {
      waiting = refl;
      room = rw all_in h;
      positive = omega arith;
      bounded = omega arith;
    } in
    rw (all_in, sent) at (sent_bytes-le ts (new factor) start)
