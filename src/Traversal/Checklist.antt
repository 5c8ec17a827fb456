-- ===== src/Traversal/Checklist.antt =====
-- The checklist of candidate pairs of v3-nat/src/lib.rs.
use todero_protocol_native.Base.{
  ℕ, ◌+◌, ◌-◌, ◌*◌, ◌%◌, ◌^◌, ◌<◌, ◌≡◌, min, max, Bool, true, false, not, ◌&&◌, ◌||◌, List, [], ◌∷◌,
  ◌++◌, Option, none, some, if◌then◌else◌, ltb, ◌==◌, arith, ◌↔◌, ◌⊎◌,
}
use todero_protocol_native.Traversal.Candidates.{IceCandidate, same_text}

pub data CandidatePairState : Type 0 where
  frozen in_progress succeeded failed : CandidatePairState

abbrev pub is_frozen : CandidatePairState → Bool
is_frozen frozen = true
is_frozen in_progress = false
is_frozen succeeded = false
is_frozen failed = false

abbrev pub is_succeeded : CandidatePairState → Bool
is_succeeded frozen = false
is_succeeded in_progress = false
is_succeeded succeeded = true
is_succeeded failed = false

pub record CandidatePair : Type 0 where
  pub local_index : ℕ
  pub remote_index : ℕ
  pub priority : ℕ
  pub nominated : Bool
  pub state : CandidatePairState

pub record IceChecklist : Type 0 where
  pub local : List IceCandidate
  pub remote : List IceCandidate
  pub pairs : List CandidatePair

-- `u64::from(b)`
abbrev pub bit : Bool → ℕ
bit true = 1
bit false = 0

-- The sum of `pair_priority`, before it wraps at 2 ^ 64 (a debug build panics there).
unfoldable pub pair_sum : ℕ → ℕ → ℕ
pair_sum local_priority remote_priority =
    2 ^ 32 * min local_priority remote_priority
    + 2 * max local_priority remote_priority
    + bit (ltb remote_priority local_priority)

unfoldable pub pair_priority : ℕ → ℕ → ℕ
pair_priority local_priority remote_priority = pair_sum local_priority remote_priority % 2 ^ 64

-- The inner loop of `IceChecklist::new`, from the index `ri` on.
unfoldable pub pairs_with : ℕ → IceCandidate → ℕ → List IceCandidate → List CandidatePair
pairs_with li l ri [] = []
pairs_with li l ri (r ∷ rs) =
    let rest = pairs_with li l (ri + 1) rs in
    if not (l.component == r.component) || not (same_text l.transport r.transport)
    then rest
    else record {
      local_index = li;
      remote_index = ri;
      priority = pair_priority l.priority r.priority;
      nominated = false;
      state = frozen;
    }
      ∷ rest

-- The outer loop, from the index `li` on.
unfoldable pub all_pairs : ℕ → List IceCandidate → List IceCandidate → List CandidatePair
all_pairs li [] remote = []
all_pairs li (l ∷ ls) remote = pairs_with li l 0 remote ++ all_pairs (li + 1) ls remote

-- `sort_by(|a, b| b.priority.cmp(&a.priority))`: stable, the highest priority first.
unfoldable pub insert_pair : CandidatePair → List CandidatePair → List CandidatePair
insert_pair p [] = p ∷ []
insert_pair p (q ∷ qs) =
    let rest = insert_pair p qs in if ltb p.priority q.priority then q ∷ rest else p ∷ q ∷ qs

unfoldable pub sort_pairs : List CandidatePair → List CandidatePair
sort_pairs [] = []
sort_pairs (p ∷ ps) = insert_pair p (sort_pairs ps)

unfoldable pub new : List IceCandidate → List IceCandidate → IceChecklist
new local remote = record {
  local = local;
  remote = remote;
  pairs = sort_pairs (all_pairs 0 local remote);
}

-- The first pair that is frozen, if any, and the pairs with its state changed.
unfoldable pub take_frozen : List CandidatePair → Option (ℕ × ℕ) × List CandidatePair
take_frozen [] = (none, [])
take_frozen (p ∷ ps) =
    let rest = take_frozen ps in
    if is_frozen p.state
    then (some (p.local_index, p.remote_index), record p { state = in_progress } ∷ ps)
    else (rest.0, p ∷ rest.1)

unfoldable pub next_check : IceChecklist → Option (ℕ × ℕ) × IceChecklist
next_check self = let r = take_frozen self.pairs in (r.0, record self { pairs = r.1 })

unfoldable pub mark_pairs : ℕ → ℕ → Bool → List CandidatePair → List CandidatePair
mark_pairs local_index remote_index ok [] = []
mark_pairs local_index remote_index ok (p ∷ ps) =
    let rest = mark_pairs local_index remote_index ok ps in
    if p.local_index == local_index && p.remote_index == remote_index
    then record p { state = if ok then succeeded else failed } ∷ ps
    else p ∷ rest

unfoldable pub mark_check_result : ℕ → ℕ → Bool → IceChecklist → IceChecklist
mark_check_result local_index remote_index ok self = record self {
  pairs = mark_pairs local_index remote_index ok self.pairs;
}

abbrev pub beats : CandidatePair → Option CandidatePair → Bool
beats p none = true
beats p (some q) = ltb q.priority p.priority

-- `filter(succeeded).max_by(priority)` takes the last of the pairs with the highest priority; it is
-- marked in place.
unfoldable pub nominate_pairs : List CandidatePair → Option CandidatePair × List CandidatePair
nominate_pairs [] = (none, [])
nominate_pairs (p ∷ ps) =
    let rest = nominate_pairs ps in
    if is_succeeded p.state && beats p rest.0
    then (some (record p { nominated = true }), record p { nominated = true } ∷ ps)
    else (rest.0, p ∷ rest.1)

unfoldable pub nominate_best : IceChecklist → Option CandidatePair × IceChecklist
nominate_best self = let r = nominate_pairs self.pairs in (r.0, record self { pairs = r.1 })

-- The priorities are those of 32-bit candidates: the sum fits into a u64 unless both are the
-- largest of them, and where it does, the pair's priority is the sum.
pub pair_priority-fits :
    (l r : ℕ)
    → l < 2 ^ 32
    → r < 2 ^ 32
    → (pair_priority l r ≡ pair_sum l r) ↔ ((l < 2 ^ 32 - 1) ⊎ (r < 2 ^ 32 - 1))
unfolding pair_priority pair_sum
pair_priority-fits l r hl hr = ground arith
