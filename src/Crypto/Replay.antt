-- ===== src/Crypto/Replay.antt =====
-- `ReplayWindow` of v3-crypto/src/lib.rs.
use Prim.Native.Nat.{bit_and, bit_or}
use todero_protocol_native.Base.{
  ℕ, ◌+◌, ◌-◌, ◌*◌, ◌%◌, ◌^◌, ◌<◌, ◌⊎◌, arith, ◌≡◌, min, max, Bool, true, false, not, ◌&&◌,
  if◌then◌else◌, ltb, leb, ◌==◌,
}

pub record ReplayWindow : Type 0 where
  pub max_seen : ℕ
  pub bits : ℕ
  pub window_size : ℕ

-- `window_size.clamp(1, 128)`
abbrev pub new : ℕ → ReplayWindow
new window_size = record { max_seen = 0; bits = 0; window_size = min (max window_size 1) 128 }

-- `bits << shift` of 128 bits, for a shift below 128
abbrev pub shift_left : ℕ → ℕ → ℕ
shift_left bits shift = bits * 2 ^ shift % 2 ^ 128

unfoldable pub accept : ℕ → ReplayWindow → Bool × ReplayWindow
accept sequence self =
    let shift = sequence - self.max_seen in
    let delta = self.max_seen - sequence in
    let shifted = if leb self.window_size shift then 0 else shift_left self.bits shift in
    let mask = 2 ^ delta in
    if self.max_seen == 0 && self.bits == 0
    then (true, record self { max_seen = sequence; bits = 1 })
    else if ltb self.max_seen sequence
    then (true, record self { bits = bit_or shifted 1; max_seen = sequence })
    else if leb self.window_size delta
    then (false, self)
    else if not (bit_and self.bits mask == 0)
    then (false, self)
    else (true, record self { bits = bit_or self.bits mask })

-- A sequence that a window in use accepts is within the window or ahead of it, and the window then
-- ends at the larger of the two; what it refuses leaves it as it was.
pub accept_lem :
    (sequence : ℕ) (self : ReplayWindow)
    → 0 < self.bits
    → (((accept sequence self).0 ≡ true)
        × (self.max_seen < sequence + self.window_size)
        × ((accept sequence self).1.max_seen ≡ max self.max_seen sequence))
      ⊎ (((accept sequence self).0 ≡ false) × ((accept sequence self).1 ≡ self))
unfolding accept
accept_lem sequence self h = ground arith
