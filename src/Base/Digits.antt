-- ===== src/Base/Digits.antt =====
-- The binary digits of a number, and what `&`, `|`, shifts and remainders do to them.
use Prim.Native.Nat.{
  ℕ, zero, suc, ◌+◌, ◌*◌, ◌/◌, ◌%◌, ◌^◌, ◌≤◌, ◌<◌, min, max, digits, bit_and, bit_or,
  bit_and-bitwise, bit_or-bitwise,
}
use mathlib.Core.Path.{◌≡◌, refl, sym, ap, ◌∙◌}
use native.Mathlib.Omega.{arith}
use native.Mathlib.Nat.{
  pow-suc, one-le-pow, mod-lt, mod-eq_of_lt, mod-add-div', add-mul-mod_self_right,
}

-- The digit at a place, the lowest at place 0.
unfoldable pub bit : ℕ → ℕ → ℕ
bit zero a = a % 2
bit (suc k) a = bit k (a / 2)

pub bit-lt-two : (k a : ℕ) → bit k a < 2
unfolding bit
bit-lt-two zero a = omega arith
bit-lt-two (suc k) a = bit-lt-two k (a / 2)

pub bit-zero : (k : ℕ) → bit k 0 ≡ 0
unfolding bit
bit-zero zero = refl
bit-zero (suc k) = bit-zero k

module _ (z : ℕ → ℕ) (f : ℕ → ℕ → ℕ) (small : (x y : ℕ) → x < 2 → y < 2 → f x y < 2)
    (z_digit : (k b : ℕ) → bit k (z b) ≡ f 0 (bit k b)) where
  bit-digits : (k n a b : ℕ) → a ≤ n → bit k (digits z f n a b) ≡ f (bit k a) (bit k b)
  unfolding bit
  bit-digits k zero zero b h = z_digit k b ∙ ap (λ d. f d (bit k b)) (sym (bit-zero k))
  bit-digits k zero (suc a) b h = absurd (omega (arith, h))
  bit-digits k (suc n) zero b h = z_digit k b ∙ ap (λ d. f d (bit k b)) (sym (bit-zero k))
  bit-digits zero (suc n) (suc a) b h =
      let low = small (suc a % 2) (b % 2) (omega arith) (omega arith) in omega (arith, low)
  bit-digits (suc k) (suc n) (suc a) b h =
      let low = small (suc a % 2) (b % 2) (omega arith) (omega arith) in
      let rest = digits z f n (suc a / 2) (b / 2) in
      let halved : (rest * 2 + f (suc a % 2) (b % 2)) / 2 ≡ rest = omega (arith, low) in
      ap (bit k) halved ∙ bit-digits k n (suc a / 2) (b / 2) (omega (arith, h))

pub bit-bit_or : (k a b : ℕ) → bit k (bit_or a b) ≡ max (bit k a) (bit k b)
bit-bit_or k a b =
    ap (bit k) (λ i. bit_or-bitwise a b i)
    ∙ bit-digits (λ b. b) max (λ x y p q. omega (arith, p, q)) (λ k b. omega arith) k a a b
        (omega arith)

pub bit-bit_and : (k a b : ℕ) → bit k (bit_and a b) ≡ min (bit k a) (bit k b)
bit-bit_and k a b =
    ap (bit k) (λ i. bit_and-bitwise a b i)
    ∙ bit-digits (λ b. zero) min (λ x y p q. omega (arith, p, q)) (λ k b. bit-zero k ∙ omega arith)
        k a a b (omega arith)

-- The digits of a number shifted to the left.
pub bit-shift_left : (k d a : ℕ) → bit (k + d) (a * 2 ^ k) ≡ bit d a
unfolding bit
bit-shift_left zero d a =
    ap (λ n. bit n (a * 2 ^ 0)) {x = 0 + d} {y = d} (omega arith)
    ∙ ap (bit d) {x = a * 2 ^ 0} {y = a} (omega arith)
bit-shift_left (suc k) d a =
    let halved : a * 2 ^ suc k / 2 ≡ a * 2 ^ k =
      omega (arith, pow-suc 2 k, ap (λ (t : ℕ). a * t) (pow-suc 2 k)) in
    ap (λ n. bit n (a * 2 ^ suc k)) {x = suc k + d} {y = suc (k + d)} (omega arith)
    ∙ ap (bit (k + d)) halved
    ∙ bit-shift_left k d a

-- Half of a remainder by an even number.
half-mod : (m a : ℕ) → a % 2 ^ suc m / 2 ≡ a / 2 % 2 ^ m
half-mod m a =
    let q = a / 2 ^ suc m in
    let twice : q * 2 ^ suc m ≡ 2 * (q * 2 ^ m) =
      omega (arith, pow-suc 2 m, ap (λ (t : ℕ). q * t) (pow-suc 2 m)) in
    let low : a % 2 ^ suc m / 2 < 2 ^ m =
      omega (arith, pow-suc 2 m, mod-lt a {m = 2 ^ suc m} (one-le-pow (suc m) 2 (omega arith))) in
    let sum : a / 2 ≡ a % 2 ^ suc m / 2 + q * 2 ^ m =
      omega (arith, twice, mod-add-div' a (2 ^ suc m)) in
    sym (
      ap (λ t. t % 2 ^ m) sum
      ∙ add-mul-mod_self_right (a % 2 ^ suc m / 2) q (2 ^ m)
      ∙ mod-eq_of_lt low)

-- The digits below `m` of a number cut to `m` digits.
pub bit-mod : (m k a : ℕ) → k < m → bit k (a % 2 ^ m) ≡ bit k a
unfolding bit
bit-mod zero k a h = absurd (omega (arith, h))
bit-mod (suc m) zero a h =
    let q = a / 2 ^ suc m in
    let twice : q * 2 ^ suc m ≡ 2 * (q * 2 ^ m) =
      omega (arith, pow-suc 2 m, ap (λ (t : ℕ). q * t) (pow-suc 2 m)) in
    omega (arith, twice, mod-add-div' a (2 ^ suc m))
bit-mod (suc m) (suc k) a h = ap (bit k) (half-mod m a) ∙ bit-mod m k (a / 2) (omega (arith, h))

bit-zero-one : bit 0 1 ≡ 1
unfolding bit
bit-zero-one = refl

-- A power of two has its one digit.
pub bit-pow : (k : ℕ) → bit k (2 ^ k) ≡ 1
bit-pow k =
    ap (λ n. bit n (2 ^ k)) {x = k} {y = k + 0} (omega arith)
    ∙ ap (bit (k + 0)) {x = 2 ^ k} {y = 1 * 2 ^ k} (omega arith)
    ∙ bit-shift_left k 0 1
    ∙ bit-zero-one

pub bit-pos : (k a : ℕ) → bit k a ≡ 1 → 0 < a
bit-pos k zero h = absurd (omega (arith, h, bit-zero k))
bit-pos k (suc a) h = omega arith
