-- ===== src/Store/Contract.antt =====
-- The trait `SessionStore` of v3-store/src/lib.rs: its operations and what they promise of the entry that a
-- store holds for an id, as far as it has not expired.
use todero_protocol_native.Base.{
  ◌≡◌, refl, ℕ, ◌≤◌, not, some, none, Option, ok, err, Result, if◌then◌else◌, ◌==◌, List, length,
  arith,
}
use todero_protocol_native.Store.{
  SessionRecord, VersionedRecord, StoreError, cas_conflict, Entry, versioned, map_entry,
  same_version, next_entry,
}
use todero_protocol_native.Store.Shards.{live}

-- What a store holds for the id `i`, which has held `old`, after `entry` is stored for `cid`.
abbrev pub stored : ℕ → Entry → ℕ → Option Entry → Option Entry
stored cid entry i old = if cid == i then some entry else old

abbrev pub erased : ℕ → ℕ → Option Entry → Option Entry
erased cid i old = if cid == i then none else old

-- The result of a swap that finds `current`, and what the store then holds.
unfoldable pub swap_result :
    Option ℕ → SessionRecord → ℕ → ℕ → Option Entry → Result StoreError VersionedRecord
swap_result expected r ttl now current =
    if not (same_version (map_entry (λ e. e.version) current) expected)
    then err (cas_conflict expected (map_entry (λ e. e.version) current))
    else ok (versioned (next_entry current r ttl now))

unfoldable pub swapped :
    ℕ → Option ℕ → SessionRecord → ℕ → ℕ → Option Entry → ℕ → Option Entry → Option Entry
swapped cid expected r ttl now current i old =
    if not (same_version (map_entry (λ e. e.version) current) expected)
    then old
    else stored cid (next_entry current r ttl now) i old

-- The two are the same for every later load.
abbrev pub AgreeFrom : ℕ → Option Entry → Option Entry → Type 0
AgreeFrom now a b = (later : ℕ) → now ≤ later → live later a ≡ live later b

pub record SessionStore (S : Type 0) : Type 1 where
  pub load : ℕ → ℕ → S → Result StoreError (Option VersionedRecord) × S
  pub compare_and_swap :
      ℕ → Option ℕ → SessionRecord → ℕ → ℕ → S → Result StoreError VersionedRecord × S
  pub upsert : ℕ → SessionRecord → ℕ → ℕ → S → Result StoreError VersionedRecord × S
  pub delete : ℕ → S → Result StoreError (Unit {0}) × S
  -- The ids that a scan removes are those it finds first, in an order that the trait leaves open.
  pub scan_expired : ℕ → ℕ → S → Result StoreError (List ℕ) × S
  -- The states that the store can be in, and what it holds in one.
  pub IsSound : S → Type 0
  pub held : ℕ → S → Option Entry
  pub load_sound : (cid now : ℕ) (s : S) → IsSound s → IsSound (load cid now s).1
  pub load_result :
      (cid now : ℕ) (s : S)
      → IsSound s
      → (load cid now s).0 ≡ ok (map_entry versioned (live now (held cid s)))
  pub load_held :
      (cid now : ℕ) (s : S)
      → IsSound s
      → (i : ℕ) → AgreeFrom now (held i (load cid now s).1) (held i s)
  pub swap_sound :
      (cid : ℕ) (expected : Option ℕ) (r : SessionRecord) (ttl now : ℕ) (s : S)
      → IsSound s
      → IsSound (compare_and_swap cid expected r ttl now s).1
  pub swap_returns :
      (cid : ℕ) (expected : Option ℕ) (r : SessionRecord) (ttl now : ℕ) (s : S)
      → IsSound s
      → (compare_and_swap cid expected r ttl now s).0
        ≡ swap_result expected r ttl now (live now (held cid s))
  pub swap_held :
      (cid : ℕ) (expected : Option ℕ) (r : SessionRecord) (ttl now : ℕ) (s : S)
      → IsSound s
      → (i : ℕ)
      → AgreeFrom now
          (held i (compare_and_swap cid expected r ttl now s).1)
          (swapped cid expected r ttl now (live now (held cid s)) i (held i s))
  pub upsert_sound :
      (cid : ℕ) (r : SessionRecord) (ttl now : ℕ) (s : S)
      → IsSound s
      → IsSound (upsert cid r ttl now s).1
  pub upsert_returns :
      (cid : ℕ) (r : SessionRecord) (ttl now : ℕ) (s : S)
      → IsSound s
      → (upsert cid r ttl now s).0 ≡ ok (versioned (next_entry (live now (held cid s)) r ttl now))
  pub upsert_held :
      (cid : ℕ) (r : SessionRecord) (ttl now : ℕ) (s : S)
      → IsSound s
      → (i : ℕ)
      → held i (upsert cid r ttl now s).1
        ≡ stored cid (next_entry (live now (held cid s)) r ttl now) i (held i s)
  pub delete_sound : (cid : ℕ) (s : S) → IsSound s → IsSound (delete cid s).1
  pub delete_returns : (cid : ℕ) (s : S) → IsSound s → (delete cid s).0 ≡ ok tt
  pub delete_held :
      (cid : ℕ) (s : S) → IsSound s → (i : ℕ) → held i (delete cid s).1 ≡ erased cid i (held i s)
  pub scan_sound : (now limit : ℕ) (s : S) → IsSound s → IsSound (scan_expired now limit s).1
  pub scan_returns :
      (now limit : ℕ) (s : S)
      → IsSound s
      → (cids : List ℕ) × ((scan_expired now limit s).0 ≡ ok cids) × (length cids ≤ limit)
  pub scan_held :
      (now limit : ℕ) (s : S)
      → IsSound s
      → (i : ℕ) → AgreeFrom now (held i (scan_expired now limit s).1) (held i s)

pub live-live :
    (now later : ℕ) (o : Option Entry) → now ≤ later → live later (live now o) ≡ live later o
live-live now later none h = refl
live-live now later (some e) h = ground arith
