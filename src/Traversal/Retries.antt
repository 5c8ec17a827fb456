-- ===== src/Traversal/Retries.antt =====
-- The TURN allocation of v3-nat/src/lib.rs after transport failures.
use todero_protocol_native.Base.{
  ℕ, zero, suc, ◌+◌, ◌-◌, ◌^◌, ◌<◌, ◌≡◌, sym, ap, min, false, List, [], ◌∷◌, some, if◌then◌else◌,
  ltb, arith, length, get_elem?, some-injective, Bool-cases, inl, inr, ◌∙◌,
}
use todero_protocol_native.Base.Words.{saturating_mul_u64}
use todero_protocol_native.Traversal.Turn.{
  TurnManager, TurnAction, transport_failure, retry_after, mark_failed, failed, on_event,
}

-- Transport failures at the given times, one after the other.
unfoldable pub on_failures : List ℕ → TurnManager → List TurnAction × TurnManager
on_failures [] self = ([], self)
on_failures (now_ms ∷ times) self =
    let r = on_event now_ms transport_failure self in
    let rest = on_failures times r.1 in (r.0 ∷ rest.0, rest.1)

-- The answer to a failure that comes after `retries` others.
abbrev pub back_off : ℕ → ℕ → TurnAction
back_off backoff retries =
    if ltb 5 (retries + 1)
    then mark_failed
    else retry_after (saturating_mul_u64 backoff (2 ^ retries))

-- The manager after `n` failures, one at least.
abbrev pub after_failures : ℕ → TurnManager → TurnManager
after_failures n self = record self {
  retries = self.retries + n;
  state = if ltb 5 (self.retries + n) then failed else self.state;
}

failure_lem :
    (now : ℕ) (self : TurnManager)
    → self.retries + 1 < 2 ^ 32
    → on_event now transport_failure self
      ≡ (back_off self.cfg.retry_backoff_ms self.retries, after_failures 1 self)
unfolding on_event
failure_lem now self h =
    let count : min (self.retries + 1) (2 ^ 32 - 1) ≡ self.retries + 1 = omega (arith, h) in
    let one : self.retries + 1 - 1 ≡ self.retries = omega arith in
    elim (Bool-cases (ltb 5 (self.retries + 1))) [
      | inl e ↦ rw (count, e)
      | inr e ↦ rw (count, e, one)
    ]

-- One failure before `n + 1` others.
after_failures-suc :
    (n : ℕ) (self : TurnManager)
    → after_failures (suc n) (after_failures 1 self) ≡ after_failures (suc (suc n)) self
after_failures-suc n self =
    let count : self.retries + 1 + suc n ≡ self.retries + suc (suc n) = omega arith in
    elim (Bool-cases (ltb 5 (self.retries + suc (suc n)))) [
      | inl e ↦ rw (count, e)
      | inr e ↦ let below : ltb 5 (self.retries + 1) ≡ false = ground arith in rw (count, e, below)
    ]

answered :
    (times : List ℕ) (self : TurnManager) (i : ℕ) (action : TurnAction)
    → self.retries + length times < 2 ^ 32
    → get_elem? (on_failures times self).0 i ≡ some action
    → action ≡ back_off self.cfg.retry_backoff_ms (self.retries + i)
unfolding on_failures
answered [] self i action h e = cc
answered (now ∷ times) self zero action h e =
    sym (some-injective e)
    ∙ ap (λ r. r.0) (failure_lem now self (omega (arith, h)))
    ∙ ap (back_off self.cfg.retry_backoff_ms) {x = self.retries} {y = self.retries + 0}
        (omega arith)
answered (now ∷ times) self (suc i) action h e =
    let l = failure_lem now self (omega (arith, h)) in
    let e2 : get_elem? (on_failures times (after_failures 1 self)).0 i ≡ some action =
      ap (λ r. get_elem? (on_failures times r.1).0 i) (sym l) ∙ e in
    answered times (after_failures 1 self) i action (omega (arith, h)) e2
    ∙ ap (back_off self.cfg.retry_backoff_ms) {x = self.retries + 1 + i} {y = self.retries + suc i}
        (omega arith)

counted :
    (now : ℕ) (times : List ℕ) (self : TurnManager)
    → self.retries + length (now ∷ times) < 2 ^ 32
    → (on_failures (now ∷ times) self).1 ≡ after_failures (length (now ∷ times)) self
unfolding on_failures
counted now [] self h = ap (λ r. r.1) (failure_lem now self (omega (arith, h)))
counted now (next ∷ times) self h =
    ap (λ r. (on_failures (next ∷ times) r.1).1) (failure_lem now self (omega (arith, h)))
    ∙ counted next times (after_failures 1 self) (omega (arith, h))
    ∙ after_failures-suc (length times) self

-- Of transport failures in a row, the first five ask for a retry, each after twice the time of the
-- one before, and all later ones end the allocation: the failure at index `i` is answered by how
-- many came before it since the last allocation, `retries` with the `i` of the row. After the row
-- the manager has counted it, it has failed if the count is above 5 and else is in the state it was
-- in, and the rest of it stays.
pub on_failures_lem :
    (now : ℕ) (times : List ℕ) (self : TurnManager) (i : ℕ) (action : TurnAction)
    → self.retries + length (now ∷ times) < 2 ^ 32
    → get_elem? (on_failures (now ∷ times) self).0 i ≡ some action
    → (action ≡ back_off self.cfg.retry_backoff_ms (self.retries + i))
      × ((on_failures (now ∷ times) self).1 ≡ after_failures (length (now ∷ times)) self)
on_failures_lem now times self i action h e =
    (answered (now ∷ times) self i action h e, counted now times self h)
