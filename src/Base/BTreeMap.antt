-- ===== src/Base/BTreeMap.antt =====
-- `BTreeMap` and `HashMap` over unsigned words: an association list. `insert` keeps the list in the
-- order of its keys, which is the order in which a `BTreeMap` is walked. A set is its list of keys.
use Prim.Native.Nat.{ℕ, suc, ◌≤◌, ◌<◌}
use mathlib.Core.Path.{◌≡◌, refl}
use mathlib.Core.Bool.{Bool, false, ◌||◌}
use mathlib.Core.Option.{Option, none, some}
use mathlib.Core.List.{List, [], ◌∷◌}
use native.Mathlib.Omega.{arith}
use todero_protocol_native.Base.Tests.{ltb, ◌==◌, if◌then◌else◌}
use todero_protocol_native.Base.Lists.{length}

abbrev pub BTreeMap {ℓ} : Type ℓ → Type ℓ
BTreeMap V = List (ℕ × V)

module _ {ℓ} {V : Type ℓ} where
  unfoldable pub get : ℕ → BTreeMap V → Option V
  get k [] = none
  get k ((j, v) ∷ m) = if j == k then some v else get k m

  unfoldable pub insert : ℕ → V → BTreeMap V → BTreeMap V
  insert k v [] = (k, v) ∷ []
  insert k v ((j, w) ∷ m) =
      if j == k then (k, v) ∷ m else if ltb k j then (k, v) ∷ (j, w) ∷ m else (j, w) ∷ insert k v m

  unfoldable pub remove : ℕ → BTreeMap V → BTreeMap V
  remove k [] = []
  remove k ((j, v) ∷ m) = if j == k then remove k m else (j, v) ∷ remove k m

  -- `keys().next_back()`
  unfoldable pub last_key : BTreeMap V → Option ℕ
  last_key [] = none
  last_key ((j, v) ∷ []) = some j
  last_key ((j, v) ∷ e ∷ m) = last_key (e ∷ m)

  pub get-insert :
      (i k : ℕ) (v : V) (m : BTreeMap V)
      → get i (insert k v m) ≡ (if k == i then some v else get i m)
  unfolding get insert
  get-insert i k v [] = refl
  get-insert i k v ((j, w) ∷ m) = ground (arith, get-insert i k v m)

  pub get-remove :
      (i k : ℕ) (m : BTreeMap V) → get i (remove k m) ≡ (if k == i then none else get i m)
  unfolding get remove
  get-remove i k [] = ground arith
  get-remove i k ((j, w) ∷ m) = ground (arith, get-remove i k m)

  pub length-remove-le : (k : ℕ) (m : BTreeMap V) → length (remove k m) ≤ length m
  unfolding remove
  length-remove-le k [] = omega arith
  length-remove-le k ((j, w) ∷ m) = ground (arith, length-remove-le k m)

  -- Removing a key that is there makes the map shorter.
  pub length-remove-lt :
      (k : ℕ) (m : BTreeMap V) {v : V} → get k m ≡ some v → length (remove k m) < length m
  unfolding remove get
  length-remove-lt k [] h = ground arith
  length-remove-lt k ((j, w) ∷ m) {v = v} h =
      ground (arith, length-remove-le k m, length-remove-lt k m {v = v})

  pub length-insert-le : (k : ℕ) (v : V) (m : BTreeMap V) → length (insert k v m) ≤ suc (length m)
  unfolding insert
  length-insert-le k v [] = omega arith
  length-insert-le k v ((j, w) ∷ m) = ground (arith, length-insert-le k v m)

-- `BTreeSet` over unsigned words.
abbrev pub BTreeSet : Type 0
BTreeSet = List ℕ

unfoldable pub contains : ℕ → BTreeSet → Bool
contains k [] = false
contains k (j ∷ s) = j == k || contains k s

unfoldable pub insert_set : ℕ → BTreeSet → BTreeSet
insert_set k [] = k ∷ []
insert_set k (j ∷ s) = if j == k then k ∷ s else if ltb k j then k ∷ j ∷ s else j ∷ insert_set k s

pub contains-insert_set :
    (i k : ℕ) (s : BTreeSet) → contains i (insert_set k s) ≡ (k == i || contains i s)
unfolding contains insert_set
contains-insert_set i k [] = refl
contains-insert_set i k (j ∷ s) = ground (arith, contains-insert_set i k s)
