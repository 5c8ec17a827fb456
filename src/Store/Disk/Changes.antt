-- ===== src/Store/Disk/Changes.antt =====
-- What the lines of the disk store's log of v3-store/src/lib.rs do to its map.
use todero_protocol_native.Base.{
  ℕ, ◌≡◌, ◌⊎◌, inl, inr, refl, sym, ◌∙◌, List, [], ◌∷◌, ◌++◌, ◌==◌, Bool-cases,
}
use todero_protocol_native.Base.BTreeMap.{get, insert, remove, get-insert, get-remove}
use todero_protocol_native.Store.{Entry, Shard}

pub data Change : Type 0 where
  put : ℕ → Entry → Change
  drop_ : ℕ → Change

abbrev pub change : Change → Shard → Shard
change (put cid entry) m = insert cid entry m
change (drop_ cid) m = remove cid m

abbrev pub changes : List Change → Shard → Shard
changes [] m = m
changes (c ∷ cs) m = changes cs (change c m)

-- Two maps that hold the same entry for every id.
abbrev pub Agree : Shard → Shard → Type 0
Agree m n = (i : ℕ) → get i m ≡ get i n

pub changes-append :
    (cs : List Change) (c : Change) (m : Shard)
    → changes (cs ++ (c ∷ [])) m ≡ change c (changes cs m)
changes-append [] c m = refl
changes-append (b ∷ cs) c m = changes-append cs c (change b m)

pub change-Agree : (c : Change) (m n : Shard) → Agree m n → Agree (change c m) (change c n)
change-Agree (put cid entry) m n h i = rw (get-insert i cid entry m, get-insert i cid entry n, h i)
change-Agree (drop_ cid) m n h i = rw (get-remove i cid m, get-remove i cid n, h i)

-- A change gives an id the same entry in any two maps, or keeps what each holds.
change-alike :
    (c : Change) (m n : Shard) (i : ℕ)
    → (get i (change c m) ≡ get i (change c n))
      ⊎ ((get i (change c m) ≡ get i m) × (get i (change c n) ≡ get i n))
change-alike (put cid entry) m n i = elim (Bool-cases (cid == i)) [
  | inl e ↦ inl (rw (get-insert i cid entry m, get-insert i cid entry n, e))
  | inr e ↦ inr (get-insert i cid entry m ∙ rw e, get-insert i cid entry n ∙ rw e)
]
change-alike (drop_ cid) m n i = elim (Bool-cases (cid == i)) [
  | inl e ↦ inl (rw (get-remove i cid m, get-remove i cid n, e))
  | inr e ↦ inr (get-remove i cid m ∙ rw e, get-remove i cid n ∙ rw e)
]

changes-kept :
    (cs : List Change) (m n : Shard) (i : ℕ)
    → get i m ≡ get i n
    → get i (changes cs m) ≡ get i (changes cs n)
changes-kept [] m n i h = h
changes-kept (c ∷ cs) m n i h =
    changes-kept cs (change c m) (change c n) i
      (elim (change-alike c m n i) [ inl same ↦ same | inr (p, q) ↦ p ∙ h ∙ sym q ])

pub changes-alike :
    (cs : List Change) (m n : Shard) (i : ℕ)
    → (get i (changes cs m) ≡ get i (changes cs n))
      ⊎ ((get i (changes cs m) ≡ get i m) × (get i (changes cs n) ≡ get i n))
changes-alike [] m n i = inr (refl, refl)
changes-alike (c ∷ cs) m n i = elim (change-alike c m n i) [
  | inl same ↦ inl (changes-kept cs (change c m) (change c n) i same)
  | inr (p, q) ↦ elim (changes-alike cs (change c m) (change c n) i) [
    | inl same ↦ inl same
    | inr (p2, q2) ↦ inr (p2 ∙ p, q2 ∙ q)
  ]
]

-- Changes made again to a map that already has them change nothing.
pub changes-again :
    (cs : List Change) (m n : Shard) → Agree n (changes cs m) → Agree (changes cs n) (changes cs m)
changes-again cs m n h i = elim (changes-alike cs m n i) [
  | inl same ↦ sym same
  | inr (p, q) ↦ q ∙ h i
]
