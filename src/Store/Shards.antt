-- ===== src/Store/Shards.antt =====
-- The shards of the in-memory store of v3-store/src/lib.rs, and what a shard holds for an id.
use todero_protocol_native.Base.{
  ℕ, zero, suc, ◌<◌, ◌≡◌, ◌≢◌, refl, ap, List, [], ◌∷◌, Option, none, some, if◌then◌else◌, ltb,
  ◌==◌, length, arith,
}
use todero_protocol_native.Base.BTreeMap.{get, get-remove}
use todero_protocol_native.Store.{Entry, Shard, shard_at, set_shard, effective_entry}

pub length-set_shard : (i : ℕ) (s : Shard) (ss : List Shard) → length (set_shard i s ss) ≡ length ss
unfolding set_shard
length-set_shard zero s [] = refl
length-set_shard (suc i) s [] = refl
length-set_shard zero s (t ∷ ts) = refl
length-set_shard (suc i) s (t ∷ ts) = ap suc (length-set_shard i s ts)

pub shard_at-set_shard :
    (i : ℕ) (s : Shard) (ss : List Shard) → i < length ss → shard_at i (set_shard i s ss) ≡ s
unfolding set_shard shard_at
shard_at-set_shard i s [] h = absurd (omega (arith, h))
shard_at-set_shard zero s (t ∷ ts) h = refl
shard_at-set_shard (suc i) s (t ∷ ts) h = shard_at-set_shard i s ts (omega (arith, h))

pub shard_at-set_shard_other :
    (i j : ℕ) (s : Shard) (ss : List Shard) → i ≢ j → shard_at j (set_shard i s ss) ≡ shard_at j ss
unfolding set_shard shard_at
shard_at-set_shard_other zero j s [] h = refl
shard_at-set_shard_other (suc i) j s [] h = refl
shard_at-set_shard_other zero zero s (t ∷ ts) h = absurd (h refl)
shard_at-set_shard_other zero (suc j) s (t ∷ ts) h = refl
shard_at-set_shard_other (suc i) zero s (t ∷ ts) h = refl
shard_at-set_shard_other (suc i) (suc j) s (t ∷ ts) h =
    shard_at-set_shard_other i j s ts (λ e. h (ap suc e))

-- The entry of the id where it has not expired.
abbrev pub live : ℕ → Option Entry → Option Entry
live now_ms none = none
live now_ms (some e) = if ltb now_ms e.expires_at_ms then some e else none

pub effective_entry-live :
    (cid now : ℕ) (map : Shard) → (effective_entry cid now map).0 ≡ live now (get cid map)
unfolding effective_entry
effective_entry-live cid now map = ground arith

-- Looking an id up changes the entry of no other id.
pub get-effective_entry :
    (i cid now : ℕ) (map : Shard)
    → get i (effective_entry cid now map).1 ≡ (if cid == i then live now (get i map) else get i map)
unfolding effective_entry
get-effective_entry i cid now map = ground (arith, get-remove i cid map)
