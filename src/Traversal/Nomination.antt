-- ===== src/Traversal/Nomination.antt =====
-- The nomination of a candidate pair of v3-nat/src/lib.rs.
use todero_protocol_native.Base.{
  ◌≤◌, ◌<◌, ◌++◌, if◌then◌else◌, ltb, ◌≡◌, refl, Bool, true, false, ◌&&◌, List, [], ◌∷◌, Option,
  none, some, All, All-append, arith, if-elim, ltb→lt, ltb_false→le,
}
use todero_protocol_native.Traversal.Checklist.{
  CandidatePair, is_succeeded, beats, nominate_pairs, IceChecklist, nominate_best,
}

-- The checklist's pairs, and the pair nominated of them with the pairs as they then are: the one
-- nominated is in the list and has succeeded, no succeeded pair before it is higher and all those
-- behind it are lower, and it is marked in its place. Nothing is nominated, and nothing changes, where
-- none has succeeded.
pub data IsNominated : List CandidatePair → Option CandidatePair × List CandidatePair → Type 0 where
  none_succeeded :
      {ps : List CandidatePair}
      → All (λ p. is_succeeded p.state ≡ false) ps
      → IsNominated ps (none, ps)
  best_pair :
      (best : CandidatePair) (before after : List CandidatePair)
      → is_succeeded best.state ≡ true
      → All (λ p. is_succeeded p.state ≡ true → p.priority ≤ best.priority) before
      → All (λ p. is_succeeded p.state ≡ true → p.priority < best.priority) after
      → IsNominated (before ++ (best ∷ after)) (
        some (record best { nominated = true }),
        before ++ (record best { nominated = true } ∷ after),
      )

All-weaken :
    {P Q : CandidatePair → Type 0} (ps : List CandidatePair)
    → ((p : CandidatePair) → P p → Q p)
    → All P ps
    → All Q ps
All-weaken [] f h = tt
All-weaken (p ∷ ps) f (h, hs) = (f p h, All-weaken ps f hs)

and_left : (a b : Bool) → (a && b) ≡ true → a ≡ true
and_left true b e = refl
and_left false b e = cc

and_right : (a b : Bool) → (a && b) ≡ true → b ≡ true
and_right true b e = e
and_right false b e = cc

and_false : (a b : Bool) → (a && b) ≡ false → a ≡ true → b ≡ false
and_false true b e h = e
and_false false b e h = cc

left_false : (a : Bool) → (a && true) ≡ false → a ≡ false
left_false true e = e
left_false false e = refl

apart : (b : Bool) → b ≡ false → b ≡ true → ⊥
apart true f s = cc
apart false f s = cc

-- A round of the loop, for `p` in front of the pairs that have been looked at.
round_lem :
    (p : CandidatePair) (ps : List CandidatePair) (r : Option CandidatePair × List CandidatePair)
    → IsNominated ps r
    → IsNominated (p ∷ ps) (
        if is_succeeded p.state && beats p r.0
        then (some (record p { nominated = true }), record p { nominated = true } ∷ ps)
        else (r.0, p ∷ r.1))
round_lem p ps r (none_succeeded h) =
    if-elim {A = Option CandidatePair × List CandidatePair} (IsNominated (p ∷ ps))
      (is_succeeded p.state && true)
      (λ e. best_pair p [] ps (and_left _ _ e) tt (
        All-weaken ps
          (λ q (f : is_succeeded q.state ≡ false) (s : is_succeeded q.state ≡ true).
            absurd (apart _ f s))
          h))
      (λ e. none_succeeded (left_false _ e, h))
round_lem p ps r (best_pair best before after s hb ha) =
    if-elim {A = Option CandidatePair × List CandidatePair}
      (IsNominated (p ∷ before ++ (best ∷ after)))
      (is_succeeded p.state && ltb best.priority p.priority)
      (λ e.
        let higher = ltb→lt best.priority p.priority (and_right (is_succeeded p.state) _ e) in
        best_pair p [] (before ++ (best ∷ after)) (and_left _ _ e) tt (
          All-append _ before (best ∷ after)
            (All-weaken before
              (λ q (f : is_succeeded q.state ≡ true → q.priority ≤ best.priority)
                  (s2 : is_succeeded q.state ≡ true).
                omega (arith, f s2, higher))
              hb)
            (
              (λ s2. higher),
              All-weaken after
                  (λ q (f : is_succeeded q.state ≡ true → q.priority < best.priority)
                      (s2 : is_succeeded q.state ≡ true).
                    omega (arith, f s2, higher))
                  ha,
            )))
      (λ e.
        best_pair best (p ∷ before) after s
          (
            (λ sp. ltb_false→le best.priority p.priority (and_false (is_succeeded p.state) _ e sp)),
            hb,
          )
          ha)

nominate_pairs-IsNominated : (ps : List CandidatePair) → IsNominated ps (nominate_pairs ps)
unfolding nominate_pairs
nominate_pairs-IsNominated [] = none_succeeded tt
nominate_pairs-IsNominated (p ∷ ps) =
    round_lem p ps (nominate_pairs ps) (nominate_pairs-IsNominated ps)

-- `nominate_best` nominates a pair of the checklist whose check has succeeded and that has the highest
-- priority of those, of several the last one, and marks it in its place; only where no check has
-- succeeded it nominates none, and nothing changes. The candidates stay.
pub nominate_best-IsNominated :
    (self : IceChecklist)
    → IsNominated self.pairs ((nominate_best self).0, (nominate_best self).1.pairs)
      × ((nominate_best self).1.local ≡ self.local)
      × ((nominate_best self).1.remote ≡ self.remote)
unfolding nominate_best
nominate_best-IsNominated self = (nominate_pairs-IsNominated self.pairs, refl, refl)
