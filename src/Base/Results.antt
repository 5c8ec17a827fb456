-- ===== src/Base/Results.antt =====
-- Rust's `Result<A, E>`: the `?` operator is the bind of `do`, an early `return Err(e)` is a guard.
use mathlib.Core.Path.{◌≡◌, refl}
use mathlib.Core.Logic.{◌⊎◌, inl, inr}
use mathlib.Core.Bool.{Bool, true, false}
use mathlib.Core.Option.{some}

pub data Result {ℓ} (E : Type 0) (A : Type ℓ) : Type ℓ where
  err : E → Result E A
  ok : A → Result E A

-- `if bad { return Err(reason) }`
abbrev pub refuse_if : {E : Type 0} → Bool → E → Result E (Unit {0})
refuse_if false reason = ok tt
refuse_if true reason = err reason

module _ {E : Type 0} where
  infixl 5 ◌>>=◌
  abbrev pub ◌>>=◌ {ℓ κ} : {V : Type ℓ} {W : Type κ} → Result E V → (V → Result E W) → Result E W
  err reason >>= next = err reason
  ok v >>= next = next v

  infixl 5 ◌>>◌
  abbrev pub ◌>>◌ {κ} : {W : Type κ} → Result E (Unit {0}) → Result E W → Result E W
  checks >> next = checks >>= (λ passed. next)

  -- Both steps of a chain that succeeds have succeeded.
  pub >>=-eq-ok {ℓ κ} :
      {V : Type ℓ} {W : Type κ} (step : Result E V) (next : V → Result E W) {w : W}
      → (step >>= next) ≡ ok w
      → (v : V) × (step ≡ ok v) × (next v ≡ ok w)
  >>=-eq-ok (err reason) next e = cc
  >>=-eq-ok (ok v) next e = (v, refl, e)

module _ {ℓ} {E : Type 0} {V : Type ℓ} where
  pub err-ne-ok : {reason : E} {v : V} → ◌≡◌ {A = Result E V} (err reason) (ok v) → ⊥
  err-ne-ok e = cc

  pub ok-injective : {v w : V} → ◌≡◌ {A = Result E V} (ok v) (ok w) → v ≡ w
  ok-injective e = cc

  -- A chain that succeeds has passed the guard at its front.
  pub refuse_if-eq-ok :
      (bad : Bool) (reason : E) (next : Result E V) {v : V}
      → (refuse_if bad reason >> next) ≡ ok v
      → (bad ≡ false) × (next ≡ ok v)
  refuse_if-eq-ok false reason next e = (refl, e)
  refuse_if-eq-ok true reason next e = cc

  -- To split on a computed result and keep the equation.
  pub Result-cases : (r : Result E V) → ((v : V) × (r ≡ ok v)) ⊎ ((reason : E) × (r ≡ err reason))
  Result-cases (err reason) = inr (reason, refl)
  Result-cases (ok v) = inl (v, refl)

pub some-injective {ℓ} : {V : Type ℓ} {v w : V} → some v ≡ some w → v ≡ w
some-injective e = cc
