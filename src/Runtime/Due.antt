-- ===== src/Runtime/Due.antt =====
-- Which timers the `poll_timers` of v3-client-runtime/src/lib.rs and v3-server-runtime/src/lib.rs run.
use todero_protocol_native.Base.{
  ℕ, zero, suc, ◌≤◌, ◌≡◌, refl, sym, ap, ◌∙◌, List, [], ◌∷◌, ◌++◌, append-nil, append_assoc,
  if◌then◌else◌, ltb, leb, length, length-append, length-take, take, arith, Bool-cases, inl, inr,
  leb→le, leb_false→lt,
}
use todero_protocol_native.Runtime.Timers.{Timers, due_entries, due_timers}

module _ {A : Type 0} where
  abbrev pub with_deadline : ℕ → List A → List (ℕ × A)
  with_deadline deadline [] = []
  with_deadline deadline (x ∷ xs) = (deadline, x) ∷ with_deadline deadline xs

  -- The entries whose deadline has come, in the order of their deadlines.
  unfoldable pub pending : ℕ → Timers A → List (ℕ × A)
  pending now [] = []
  pending now ((deadline, entries) ∷ timers) =
      if ltb now deadline then [] else with_deadline deadline entries ++ pending now timers

  take_short : (n : ℕ) (xs ys : List (ℕ × A)) → n ≤ length xs → take n (xs ++ ys) ≡ take n xs
  take_short zero xs ys h = refl
  take_short (suc n) [] ys h = absurd (omega (arith, h))
  take_short (suc n) (x ∷ xs) ys h = ap (λ l. x ∷ l) (take_short n xs ys (omega (arith, h)))

  take_all : (n : ℕ) (xs : List (ℕ × A)) → length xs ≤ n → take n xs ≡ xs
  take_all zero [] h = refl
  take_all zero (x ∷ xs) h = absurd (omega (arith, h))
  take_all (suc n) [] h = refl
  take_all (suc n) (x ∷ xs) h = ap (λ l. x ∷ l) (take_all n xs (omega (arith, h)))

  take_full : (n : ℕ) (xs ys : List (ℕ × A)) → length xs ≡ n → take n (xs ++ ys) ≡ xs
  take_full n xs ys h = take_short n xs ys (omega (arith, h)) ∙ take_all n xs (omega (arith, h))

  due_entries_lem :
      (limit deadline : ℕ) (entries : List A) (due : List (ℕ × A))
      → length due ≤ limit
      → due_entries limit deadline entries due ≡ take limit (due ++ with_deadline deadline entries)
  unfolding due_entries
  due_entries_lem limit deadline [] due h =
      sym (ap (take limit) (append-nil due) ∙ take_all limit due h)
  due_entries_lem limit deadline (x ∷ xs) due h = elim (Bool-cases (leb limit (length due))) [
    | inl e ↦ rw e (
        sym (
          take_full limit due ((deadline, x) ∷ with_deadline deadline xs)
            (omega (arith, h, leb→le limit (length due) e))))
    | inr e ↦ rw e (
        due_entries_lem limit deadline xs (due ++ ((deadline, x) ∷ []))
          (omega (arith, length-append due ((deadline, x) ∷ []), leb_false→lt limit (length due) e))
        ∙ ap (take limit) (append_assoc due ((deadline, x) ∷ []) (with_deadline deadline xs)))
  ]

  take_twice : (n : ℕ) (xs ys : List (ℕ × A)) → take n (take n xs ++ ys) ≡ take n (xs ++ ys)
  take_twice zero xs ys = refl
  take_twice (suc n) [] ys = refl
  take_twice (suc n) (x ∷ xs) ys = ap (λ l. x ∷ l) (take_twice n xs ys)

  due_timers_lem :
      (now limit : ℕ) (timers : Timers A) (due : List (ℕ × A))
      → length due ≤ limit
      → due_timers now limit timers due ≡ take limit (due ++ pending now timers)
  unfolding due_timers pending
  due_timers_lem now limit [] due h = sym (ap (take limit) (append-nil due) ∙ take_all limit due h)
  due_timers_lem now limit ((deadline, xs) ∷ timers) due h = elim (Bool-cases (ltb now deadline)) [
    | inl later ↦ rw later (sym (ap (take limit) (append-nil due) ∙ take_all limit due h))
    | inr come ↦ elim (Bool-cases (leb limit (length due))) [
      | inl e ↦
          rw (come, e) (sym (take_full limit due _ (omega (arith, h, leb→le limit (length due) e))))
      | inr e ↦
          let inner = due_entries_lem limit deadline xs due h in
          rw (come, e, inner)
            (due_timers_lem now limit timers (take limit (due ++ with_deadline deadline xs))
                (omega (arith, length-take limit (due ++ with_deadline deadline xs)))
              ∙ take_twice limit (due ++ with_deadline deadline xs) (pending now timers)
              ∙ ap (take limit) (append_assoc due (with_deadline deadline xs) (pending now timers)))
    ]
  ]

  -- The timers that a poll runs are the first `limit` of all entries before the first deadline that is
  -- still to come, in the order of the deadlines and, at one deadline, of their registration.
  pub due_timers-take :
      (now limit : ℕ) (timers : Timers A)
      → due_timers now limit timers [] ≡ take limit (pending now timers)
  due_timers-take now limit timers = due_timers_lem now limit timers [] (omega arith)
