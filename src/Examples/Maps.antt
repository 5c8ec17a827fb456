-- ===== src/Examples/Maps.antt =====
-- An order of the entries of a map, for the maps of the stores in the examples.
use todero_protocol_native.Base.{
  ◌≡◌, sym, ap, ◌∙◌, ℕ, true, List, [], ◌∷◌, some, none, ◌==◌, ==_iff, All, Bool-cases,
  Option-cases, inl, inr,
}
use todero_protocol_native.Base.BTreeMap.{get, insert, get-insert}
use todero_protocol_native.Store.{Entry, Shard}
use todero_protocol_native.Store.Expiry.{Iteration}
use todero_protocol_native.Store.Disk.Laws.{insert_pairs}

-- The entries that a map holds for the keys of a list.
abbrev pub held_for : Shard → List (ℕ × Entry) → List (ℕ × Entry)
held_for m [] = []
held_for m ((cid, _) ∷ pairs) = elim (get cid m) [
  | none ↦ held_for m pairs
  | some entry ↦ (cid, entry) ∷ held_for m pairs
]

pub held_for-All :
    (m : Shard) (pairs : List (ℕ × Entry)) → All (λ p. get p.0 m ≡ some p.1) (held_for m pairs)
held_for-All m [] = tt
held_for-All m ((cid, _) ∷ pairs) = elim (Option-cases (get cid m)) [
  | inl e ↦ rw (e, held_for) (held_for-All m pairs)
  | inr (entry, e) ↦ rw (e, held_for) (e, held_for-All m pairs)
]

get-inserted :
    (m n : Shard) (cid i : ℕ) (entry : Entry)
    → get cid m ≡ some entry
    → ((cid == i) ≡ true → get i (insert cid entry n) ≡ get i m)
      × (get i n ≡ get i m → get i (insert cid entry n) ≡ get i m)
get-inserted m n cid i entry e = (
  same,
  λ h. elim (Bool-cases (cid == i)) [
    | inl q ↦ same q
    | inr q ↦ get-insert i cid entry n ∙ (rw q) ∙ h
  ],
)
  where
    same : (cid == i) ≡ true → get i (insert cid entry n) ≡ get i m
    same q = get-insert i cid entry n ∙ (rw q) ∙ sym e ∙ ap (λ k. get k m) ((==_iff cid i).0 q)

held_for-kept :
    (m : Shard) (pairs : List (ℕ × Entry)) (n : Shard) (i : ℕ)
    → get i n ≡ get i m
    → get i (insert_pairs (held_for m pairs) n) ≡ get i m
held_for-kept m [] n i h = h
held_for-kept m ((cid, _) ∷ pairs) n i h = elim (Option-cases (get cid m)) [
  | inl e ↦ rw (e, insert_pairs) (held_for-kept m pairs n i h)
  | inr (entry, e) ↦
      rw (e, insert_pairs)
        (held_for-kept m pairs (insert cid entry n) i ((get-inserted m n cid i entry e).1 h))
]

held_for-got :
    (m : Shard) (pairs : List (ℕ × Entry)) (n : Shard) (i : ℕ) (v w : Entry)
    → get i pairs ≡ some v
    → get i m ≡ some w
    → get i (insert_pairs (held_for m pairs) n) ≡ get i m
unfolding get
held_for-got m [] n i v w h k = cc
held_for-got m ((cid, entry) ∷ pairs) n i v w h k = elim (Bool-cases (cid == i)) [
  | inl q ↦
      let e : get cid m ≡ some w = ap (λ j. get j m) ((==_iff cid i).0 q) ∙ k in
      rw (e, insert_pairs)
        (held_for-kept m pairs (insert cid w n) i ((get-inserted m n cid i w e).0 q))
  | inr q ↦
      let h2 : get i pairs ≡ some v = rw (q, get) at h in
      elim (Option-cases (get cid m)) [
        | inl e ↦ rw (e, insert_pairs) (held_for-got m pairs n i v w h2 k)
        | inr (x, e) ↦ rw (e, insert_pairs) (held_for-got m pairs (insert cid x n) i v w h2 k)
      ]
]

pub get-held_for : (m : Shard) (i : ℕ) → get i (insert_pairs (held_for m m) []) ≡ get i m
unfolding get
get-held_for m i = elim (Option-cases (get i m)) [
  | inl e ↦ held_for-kept m m [] i (sym e)
  | inr (v, e) ↦ held_for-got m m [] i v v e e
]

abbrev pub order : Iteration
order = record { iter = λ m. held_for m m; get-iter = λ m. held_for-All m m }
