-- ===== src/Store.antt =====
-- The sharded in-memory session store of v3-store/src/lib.rs. A shard's `HashMap` is an association
-- list by key; each operation on an id holds its shard's lock from its start to its end, so it is one step.
use Prim.Native.String.{String}
use todero_protocol_native.Base.{
  ℕ, zero, suc, ◌+◌, ◌-◌, ◌%◌, ◌≤◌, ◌<◌, ◌≡◌, Bool, true, false, not, List, [], ◌∷◌, ◌++◌, Option,
  none, some, Result, ok, err, if◌then◌else◌, ltb, leb, ◌==◌, length, get_elem?,
}
use todero_protocol_native.Base.Words.{saturating_add_u64}
use todero_protocol_native.Base.BTreeMap.{BTreeMap, get, insert, remove}
pub mod Shards
pub mod Scan
pub mod Versions
pub mod Contract
pub mod Expiry
pub mod Requests
pub mod Memory
pub mod Disk

pub record SessionRecord : Type 0 where
  pub cid : ℕ
  pub peer_id : String
  pub negotiated_msr_interval_ms : ℕ
  pub disconnect_window_ms : ℕ
  pub last_ordered_rx : ℕ
  pub last_ordered_tx : ℕ

pub record VersionedRecord : Type 0 where
  pub version : ℕ
  pub record_ : SessionRecord
  pub expires_at_ms : ℕ

pub data StoreError : Type 0 where
  -- `expected` and `actual`
  cas_conflict : Option ℕ → Option ℕ → StoreError
  invalid_shard_count : StoreError
  serialization backend io : String → StoreError
  unsupported_schema_version : ℕ → StoreError
  corrupt_log_entry checksum_mismatch : StoreError

pub record Entry : Type 0 where
  pub version : ℕ
  pub record_ : SessionRecord
  pub expires_at_ms : ℕ

abbrev pub Shard : Type 0
Shard = BTreeMap Entry

pub record InMemorySessionStore : Type 0 where
  pub shards : List Shard

abbrev pub default_shard_count : ℕ
default_shard_count = 32

unfoldable pub empty_shards : ℕ → List Shard
empty_shards zero = []
empty_shards (suc n) = [] ∷ empty_shards n

unfoldable pub new : ℕ → Result StoreError InMemorySessionStore
new shard_count =
    if shard_count == 0
    then err invalid_shard_count
    else ok (record { shards = empty_shards shard_count })

abbrev pub shard_index : InMemorySessionStore → ℕ → ℕ
shard_index self cid = cid % length self.shards

-- `self.shards[i]`; a store has a shard at each index that `shard_index` gives.
unfoldable pub shard_at : ℕ → List Shard → Shard
shard_at i [] = []
shard_at zero (s ∷ ss) = s
shard_at (suc i) (s ∷ ss) = shard_at i ss

unfoldable pub set_shard : ℕ → Shard → List Shard → List Shard
set_shard i s [] = []
set_shard zero s (t ∷ ts) = s ∷ ts
set_shard (suc i) s (t ∷ ts) = t ∷ set_shard i s ts

-- The entry, if it has not expired; one that has is removed.
unfoldable pub effective_entry : ℕ → ℕ → Shard → Option Entry × Shard
effective_entry cid now_ms map = elim (get cid map) [
  | none ↦ (none, map)
  | some entry ↦
      if ltb now_ms entry.expires_at_ms then (some entry, map) else (none, remove cid map)
]

abbrev pub versioned : Entry → VersionedRecord
versioned e = record { version = e.version; record_ = e.record_; expires_at_ms = e.expires_at_ms }

abbrev pub map_entry {ℓ} : {B : Type ℓ} → (Entry → B) → Option Entry → Option B
map_entry f none = none
map_entry f (some e) = some (f e)

-- `current.map(|e| e.version).unwrap_or(0)`
abbrev pub version_or_zero : Option Entry → ℕ
version_or_zero none = 0
version_or_zero (some e) = e.version

abbrev pub same_version : Option ℕ → Option ℕ → Bool
same_version none none = true
same_version none (some b) = false
same_version (some a) none = false
same_version (some a) (some b) = a == b

unfoldable pub next_entry : Option Entry → SessionRecord → ℕ → ℕ → Entry
next_entry current new_record ttl_ms now_ms = record {
  version = saturating_add_u64 (version_or_zero current) 1;
  record_ = new_record;
  expires_at_ms = saturating_add_u64 now_ms ttl_ms;
}

-- The operations on the shard of the connection id, as the code has them under its lock.
unfoldable pub load_shard : ℕ → ℕ → Shard → Option VersionedRecord × Shard
load_shard cid now_ms map = let r = effective_entry cid now_ms map in (map_entry versioned r.0, r.1)

unfoldable pub compare_and_swap_shard :
    ℕ → Option ℕ → SessionRecord → ℕ → ℕ → Shard → Result StoreError VersionedRecord × Shard
compare_and_swap_shard cid expected_version new_record ttl_ms now_ms map =
    let r = effective_entry cid now_ms map in
    let current_version = map_entry (λ e. e.version) r.0 in
    let entry = next_entry r.0 new_record ttl_ms now_ms in
    if not (same_version current_version expected_version)
    then (err (cas_conflict expected_version current_version), r.1)
    else (ok (versioned entry), insert cid entry r.1)

unfoldable pub upsert_shard :
    ℕ → SessionRecord → ℕ → ℕ → Shard → Result StoreError VersionedRecord × Shard
upsert_shard cid new_record ttl_ms now_ms map =
    let r = effective_entry cid now_ms map in
    let entry = next_entry r.0 new_record ttl_ms now_ms in
    (ok (versioned entry), insert cid entry r.1)

-- An operation on one shard as an operation on the store.
abbrev pub on_shard {ℓ} :
    {A : Type ℓ} → ℕ → (Shard → A × Shard) → InMemorySessionStore → A × InMemorySessionStore
on_shard cid f self =
    let r = f (shard_at (shard_index self cid) self.shards) in
    (r.0, record { shards = set_shard (shard_index self cid) r.1 self.shards })

unfoldable pub load : ℕ → ℕ → InMemorySessionStore → Option VersionedRecord × InMemorySessionStore
load cid now_ms self = on_shard cid (load_shard cid now_ms) self

unfoldable pub compare_and_swap :
    ℕ
    → Option ℕ
    → SessionRecord
    → ℕ
    → ℕ
    → InMemorySessionStore
    → Result StoreError VersionedRecord × InMemorySessionStore
compare_and_swap cid expected_version new_record ttl_ms now_ms self =
    on_shard cid (compare_and_swap_shard cid expected_version new_record ttl_ms now_ms) self

unfoldable pub upsert :
    ℕ
    → SessionRecord
    → ℕ
    → ℕ
    → InMemorySessionStore
    → Result StoreError VersionedRecord × InMemorySessionStore
upsert cid new_record ttl_ms now_ms self =
    on_shard cid (upsert_shard cid new_record ttl_ms now_ms) self

unfoldable pub delete : ℕ → InMemorySessionStore → InMemorySessionStore
delete cid self = record {
  shards =
      set_shard (shard_index self cid) (remove cid (shard_at (shard_index self cid) self.shards))
        self.shards;
}
