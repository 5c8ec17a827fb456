-- ===== src/Base/Words.antt =====
-- Unsigned machine words as numbers with their wrap-around written out, `saturating_add` and its
-- kin, and the big-endian bytes of a word (`to_be_bytes` and `from_be_bytes` of the standard library).
use Prim.Native.Nat.{ℕ, zero, suc, ◌+◌, ◌-◌, ◌*◌, ◌/◌, ◌%◌, ◌^◌, ◌<◌, min}
use mathlib.Core.Path.{◌≡◌, refl, ap, ◌∙◌}
use mathlib.Core.List.{List, [], ◌∷◌, ◌++◌, append_assoc, append-nil}
use native.Mathlib.Omega.{arith}
use native.Mathlib.Nat.{zero-add}
use todero_protocol_native.Base.Lists.{length, length-append, All, All-append}

abbrev pub IsByte : ℕ → Type 0
IsByte b = b < 256

abbrev pub IsU16 : ℕ → Type 0
IsU16 v = v < 2 ^ 16

abbrev pub IsU32 : ℕ → Type 0
IsU32 v = v < 2 ^ 32

abbrev pub IsU64 : ℕ → Type 0
IsU64 v = v < 2 ^ 64

-- `a + b` on u64 in a release build, where overflow wraps.
abbrev pub add_u64 : ℕ → ℕ → ℕ
add_u64 a b = (a + b) % 2 ^ 64

abbrev pub saturating_add_u64 : ℕ → ℕ → ℕ
saturating_add_u64 a b = min (a + b) (2 ^ 64 - 1)

abbrev pub saturating_mul_u64 : ℕ → ℕ → ℕ
saturating_mul_u64 a b = min (a * b) (2 ^ 64 - 1)

abbrev pub saturating_add_u32 : ℕ → ℕ → ℕ
saturating_add_u32 a b = min (a + b) (2 ^ 32 - 1)

abbrev pub saturating_add_u8 : ℕ → ℕ → ℕ
saturating_add_u8 a b = min (a + b) 255

-- The subtraction of ℕ stops at 0, as `saturating_sub` does.
abbrev pub saturating_sub : ℕ → ℕ → ℕ
saturating_sub a b = a - b

-- The `n` bytes of `v % 256 ^ n`, the highest first.
unfoldable pub to_be_bytes : ℕ → ℕ → List ℕ
to_be_bytes zero v = []
to_be_bytes (suc n) v = to_be_bytes n (v / 256) ++ (v % 256 ∷ [])

unfoldable pub from_be_loop : ℕ → List ℕ → ℕ
from_be_loop acc [] = acc
from_be_loop acc (b ∷ bs) = from_be_loop (acc * 256 + b) bs

unfoldable pub from_be_bytes : List ℕ → ℕ
unfolding from_be_loop
from_be_bytes bs = from_be_loop 0 bs

pub length-to_be_bytes : (n v : ℕ) → length (to_be_bytes n v) ≡ n
unfolding to_be_bytes
length-to_be_bytes zero v = refl
length-to_be_bytes (suc n) v =
    length-append (to_be_bytes n (v / 256)) _ ∙ omega (arith, length-to_be_bytes n (v / 256))

pub to_be_bytes-IsByte : (n v : ℕ) → All IsByte (to_be_bytes n v)
unfolding to_be_bytes
to_be_bytes-IsByte zero v = tt
to_be_bytes-IsByte (suc n) v =
    All-append IsByte (to_be_bytes n (v / 256)) _ (to_be_bytes-IsByte n (v / 256)) (omega arith)

from_be_loop-append :
    (acc : ℕ) (xs : List ℕ) (b : ℕ)
    → from_be_loop acc (xs ++ (b ∷ [])) ≡ from_be_loop acc xs * 256 + b
unfolding from_be_loop
from_be_loop-append acc [] b = refl
from_be_loop-append acc (x ∷ xs) b = from_be_loop-append (acc * 256 + x) xs b

-- A word that fits `n` bytes is read back from its bytes.
pub from_be_bytes-to_be_bytes : (n v : ℕ) → v < 256 ^ n → from_be_bytes (to_be_bytes n v) ≡ v
unfolding from_be_bytes to_be_bytes
from_be_bytes-to_be_bytes zero v h = omega arith
from_be_bytes-to_be_bytes (suc n) v h =
    from_be_loop-append 0 (to_be_bytes n (v / 256)) (v % 256)
    ∙ omega (arith, from_be_bytes-to_be_bytes n (v / 256) (omega arith))

to_be_bytes-from_be_loop :
    (bs : List ℕ) (k acc : ℕ)
    → All IsByte bs
    → to_be_bytes (length bs + k) (from_be_loop acc bs) ≡ to_be_bytes k acc ++ bs
unfolding from_be_loop
to_be_bytes-from_be_loop [] k acc h = rw (zero-add, append-nil)
to_be_bytes-from_be_loop (b ∷ bs) k acc (hb, hs) =
    ap (λ n. to_be_bytes n (from_be_loop (acc * 256 + b) bs)) (omega arith)
    ∙ to_be_bytes-from_be_loop bs (suc k) (acc * 256 + b) hs
    ∙ unfold to_be_bytes in rw (last_byte, front, append_assoc)
  where
    last_byte : (acc * 256 + b) % 256 ≡ b
    last_byte = omega arith

    front : (acc * 256 + b) / 256 ≡ acc
    front = omega arith

-- The bytes of a big-endian word are those that it was read from.
pub to_be_bytes-from_be_bytes :
    (bs : List ℕ) → All IsByte bs → to_be_bytes (length bs) (from_be_bytes bs) ≡ bs
unfolding from_be_bytes to_be_bytes
to_be_bytes-from_be_bytes bs h =
    ap (λ n. to_be_bytes n (from_be_loop 0 bs)) {x = length bs} {y = length bs + 0} (omega arith)
    ∙ to_be_bytes-from_be_loop bs 0 0 h

from_be_loop-lt :
    (bs : List ℕ) (k acc : ℕ)
    → All IsByte bs
    → acc < 256 ^ k
    → from_be_loop acc bs < 256 ^ (length bs + k)
unfolding from_be_loop
from_be_loop-lt [] k acc h lt = rw zero-add lt
from_be_loop-lt (b ∷ bs) k acc (hb, hs) lt =
    let e : suc (length bs) + k ≡ length bs + suc k = omega arith in
    rw e (from_be_loop-lt bs (suc k) (acc * 256 + b) hs (omega arith))

-- `n` bytes hold a word below `256 ^ n`.
pub from_be_bytes-lt :
    (bs : List ℕ) {n : ℕ} → All IsByte bs → length bs ≡ n → from_be_bytes bs < 256 ^ n
unfolding from_be_bytes
from_be_bytes-lt bs h e =
    let e' : length bs + 0 ≡ length bs = omega arith in
    rw (← e) (rw e' at (from_be_loop-lt bs 0 0 h (omega arith)))

pub to_be_bytes_byte : (v : ℕ) → IsByte v → to_be_bytes 1 v ≡ v ∷ []
unfolding to_be_bytes
to_be_bytes_byte v h = ap (λ b. b ∷ []) {x = v % 256} {y = v} (omega arith)
