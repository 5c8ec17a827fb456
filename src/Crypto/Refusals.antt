-- ===== src/Crypto/Refusals.antt =====
-- `ReplayWindow` of v3-crypto/src/lib.rs never accepts a sequence number twice.
use Prim.Native.Nat.{bit_and, bit_or}
use todero_protocol_native.Base.{
  ℕ, ◌+◌, ◌-◌, ◌*◌, ◌^◌, ◌<◌, ◌≤◌, inl, inr, arith, ◌≡◌, ◌≢◌, refl, sym, ap, ◌∙◌, Bool, true, false,
  not, ◌&&◌, List, [], ◌∷◌, if◌then◌else◌, if-elim, ltb, leb, ◌==◌, Bool-cases, ltb→lt,
  ltb_false→le, leb→le, leb_false→lt,
}
use todero_protocol_native.Base.Digits.{
  bit, bit-lt-two, bit-bit_or, bit-bit_and, bit-shift_left, bit-mod, bit-pow, bit-pos,
}
use todero_protocol_native.Crypto.Replay.{ReplayWindow, new, shift_left, accept}

-- The window refuses the sequence: it is behind the window, or marked in it.
pub data Refuses (s : ℕ) (w : ReplayWindow) : Type 0 where
  behind : s + w.window_size ≤ w.max_seen → Refuses s w
  marked : (d : ℕ) → s + d ≡ w.max_seen → d < w.window_size → bit d w.bits ≡ 1 → Refuses s w

pub record IsWindow (w : ReplayWindow) : Type 0 where
  pub some_size : 0 < w.window_size
  pub small_size : w.window_size ≤ 128

marked_test : (d bits : ℕ) → bit d bits ≡ 1 → (bit_and bits (2 ^ d) == 0) ≡ false
marked_test d bits h =
    let one : bit d (bit_and bits (2 ^ d)) ≡ 1 =
      bit-bit_and d bits (2 ^ d) ∙ omega (arith, h, bit-pow d) in
    let pos = bit-pos d (bit_and bits (2 ^ d)) one in ground (arith, pos)

marked-bit_or : (d a b : ℕ) → bit d b ≡ 1 → bit d (bit_or a b) ≡ 1
marked-bit_or d a b h = bit-bit_or d a b ∙ omega (arith, h, bit-lt-two d a)

kept-bit_or : (d a b : ℕ) → bit d a ≡ 1 → bit d (bit_or a b) ≡ 1
kept-bit_or d a b h = bit-bit_or d a b ∙ omega (arith, h, bit-lt-two d b)

-- A window that refuses anything has been used.
used :
    (s : ℕ) (w : ReplayWindow) → IsWindow w → Refuses s w → (w.max_seen == 0 && w.bits == 0) ≡ false
used s w i (behind h) = let p = i.some_size in ground (arith, h, p)
used s w i (marked d at_ near one) = let p = bit-pos d w.bits one in ground (arith, p)

refused-accept : (s : ℕ) (w : ReplayWindow) → IsWindow w → Refuses s w → accept s w ≡ (false, w)
unfolding accept
refused-accept s w i r = elim r [
  | behind h ↦ let u = used s w i (behind h) in let p = i.some_size in ground (arith, u, h, p)
  | marked d at_ near one ↦
      let u = used s w i (marked d at_ near one) in
      let same : w.max_seen - s ≡ d = omega (arith, at_) in
      let m : (bit_and w.bits (2 ^ (w.max_seen - s)) == 0) ≡ false =
        ap (λ k. bit_and w.bits (2 ^ k) == 0) same ∙ marked_test d w.bits one in
      ground (arith, u, m, at_, near)
]

true≢false : true ≢ false
true≢false e = cc

bit-one : bit 0 1 ≡ 1
unfolding bit
bit-one = refl

-- What is accepted is marked.
accepted-Refuses :
    (s : ℕ) (w : ReplayWindow) → IsWindow w → (accept s w).0 ≡ true → Refuses s (accept s w).1
unfolding accept
accepted-Refuses s w i =
    let shift = s - w.max_seen in
    let delta = w.max_seen - s in
    let shifted = if leb w.window_size shift then 0 else shift_left w.bits shift in
    let P : Bool × ReplayWindow → Type 0 = λ p. p.0 ≡ true → Refuses s p.1 in
    if-elim P (w.max_seen == 0 && w.bits == 0) (λ _ _. marked 0 (omega arith) i.some_size bit-one)
      (λ _.
        if-elim P (ltb w.max_seen s)
          (λ _ _. marked 0 (omega arith) i.some_size (marked-bit_or 0 shifted 1 bit-one))
          (λ within.
            if-elim P (leb w.window_size delta) (λ _ e. cc)
              (λ near.
                if-elim P (not (bit_and w.bits (2 ^ delta) == 0)) (λ _ e. cc)
                  (λ _ _.
                    marked delta (omega (arith, ltb_false→le w.max_seen s within))
                      (leb_false→lt w.window_size delta near)
                      (marked-bit_or delta w.bits (2 ^ delta) (bit-pow delta))))))

-- The digits of a window that moves on.
shifted_digit :
    (d shift : ℕ) (w : ReplayWindow)
    → IsWindow w
    → shift + d < w.window_size
    → bit d w.bits ≡ 1
    → bit (shift + d) (if leb w.window_size shift then 0 else shift_left w.bits shift) ≡ 1
shifted_digit d shift w i h one =
    let small : shift + d < 128 = let p = i.small_size in omega (arith, p, h) in
    let digit : bit (shift + d) (shift_left w.bits shift) ≡ 1 =
      bit-mod 128 (shift + d) (w.bits * 2 ^ shift) small ∙ bit-shift_left shift d w.bits ∙ one in
    if-elim (λ b. bit (shift + d) b ≡ 1) (leb w.window_size shift)
      (λ e. absurd (omega (arith, h, leb→le w.window_size shift e))) (λ _. digit)

moved-Refuses :
    (s t : ℕ) (w : ReplayWindow)
    → IsWindow w
    → w.max_seen < t
    → Refuses s w
    → Refuses s (record w {
      bits =
          bit_or
            (if leb w.window_size (t - w.max_seen) then 0 else shift_left w.bits (t - w.max_seen))
            1;
      max_seen = t;
    })
moved-Refuses s t w i ahead (behind h) = behind (omega (arith, h, ahead))
moved-Refuses s t w i ahead (marked d at_ near one) =
    let shift = t - w.max_seen in
    elim (Bool-cases (leb w.window_size (shift + d))) [
      | inl far ↦ behind (omega (arith, leb→le w.window_size (shift + d) far, at_, ahead))
      | inr close ↦
          let h = leb_false→lt w.window_size (shift + d) close in
          marked (shift + d) (omega (arith, at_, ahead)) h
            (kept-bit_or (shift + d) _ 1 (shifted_digit d shift w i h one))
    ]

-- Whatever comes next, a refused sequence stays refused.
accept-Refuses : (s t : ℕ) (w : ReplayWindow) → IsWindow w → Refuses s w → Refuses s (accept t w).1
unfolding accept
accept-Refuses s t w i r =
    let delta = w.max_seen - t in
    let P : Bool × ReplayWindow → Type 0 = λ p. Refuses s p.1 in
    if-elim P (w.max_seen == 0 && w.bits == 0) (λ e. absurd (true≢false (sym e ∙ used s w i r)))
      (λ _.
        if-elim P (ltb w.max_seen t) (λ ahead. moved-Refuses s t w i (ltb→lt w.max_seen t ahead) r)
          (λ _.
            if-elim P (leb w.window_size delta) (λ _. r)
              (λ _.
                if-elim P (not (bit_and w.bits (2 ^ delta) == 0)) (λ _. r)
                  (λ _. elim r [
                    | behind h ↦ behind h
                    | marked d at_ near one ↦
                        marked d at_ near (kept-bit_or d w.bits (2 ^ delta) one)
                  ]))))

accept-IsWindow : (t : ℕ) (w : ReplayWindow) → IsWindow w → IsWindow (accept t w).1
unfolding accept
accept-IsWindow t w i =
    let P : Bool × ReplayWindow → Type 0 = λ p. IsWindow p.1 in
    let sized : (next : ReplayWindow) → next.window_size ≡ w.window_size → IsWindow next = λ next e.
      record {
        some_size = let p = i.some_size in omega (arith, p, e);
        small_size = let p = i.small_size in omega (arith, p, e);
      } in
    if-elim P (w.max_seen == 0 && w.bits == 0) (λ _. sized _ refl)
      (λ _.
        if-elim P (ltb w.max_seen t) (λ _. sized _ refl)
          (λ _.
            if-elim P (leb w.window_size (w.max_seen - t)) (λ _. i)
              (λ _.
                if-elim P (not (bit_and w.bits (2 ^ (w.max_seen - t)) == 0)) (λ _. i)
                  (λ _. sized _ refl))))

-- The window after a list of sequence numbers.
unfoldable pub accept_all : List ℕ → ReplayWindow → ReplayWindow
accept_all [] w = w
accept_all (t ∷ ts) w = accept_all ts (accept t w).1

new-IsWindow : (size : ℕ) → IsWindow (new size)
new-IsWindow size = record { some_size = omega arith; small_size = omega arith }

accept_all-IsWindow : (ts : List ℕ) (w : ReplayWindow) → IsWindow w → IsWindow (accept_all ts w)
unfolding accept_all
accept_all-IsWindow [] w i = i
accept_all-IsWindow (t ∷ ts) w i = accept_all-IsWindow ts (accept t w).1 (accept-IsWindow t w i)

accept_all-Refuses :
    (s : ℕ) (ts : List ℕ) (w : ReplayWindow)
    → IsWindow w
    → Refuses s w
    → Refuses s (accept_all ts w)
unfolding accept_all
accept_all-Refuses s [] w i r = r
accept_all-Refuses s (t ∷ ts) w i r =
    accept_all-Refuses s ts (accept t w).1 (accept-IsWindow t w i) (accept-Refuses s t w i r)

-- No sequence number is accepted twice: in a new window of any size, after any numbers `before`, one
-- that is accepted is refused after any further numbers `between`, and leaves the window as it was.
pub accept-never_twice :
    (size s : ℕ) (before between : List ℕ)
    → (accept s (accept_all before (new size))).0 ≡ true
    → accept s (accept_all between (accept s (accept_all before (new size))).1)
      ≡ (false, accept_all between (accept s (accept_all before (new size))).1)
accept-never_twice size s before between h =
    let w = accept_all before (new size) in
    let i : IsWindow w = accept_all-IsWindow before (new size) (new-IsWindow size) in
    let next = (accept s w).1 in
    let j : IsWindow next = accept-IsWindow s w i in
    refused-accept s (accept_all between next) (accept_all-IsWindow between next j)
      (accept_all-Refuses s between next j (accepted-Refuses s w i h))
