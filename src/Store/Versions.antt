-- ===== src/Store/Versions.antt =====
-- The operations of the in-memory store of v3-store/src/lib.rs by what a later `load` sees.
use todero_protocol_native.Base.{
  refl, Bool, err, ◌^◌, ◌-◌, ℕ, ◌%◌, ◌<◌, ◌≡◌, ◌≢◌, sym, ◌∙◌, ap, true, false, not, Option, some,
  Bool-cases, Result, ok, inl, inr, if◌then◌else◌, ◌==◌, ==_refl, ==_iff, length, arith, if-elim,
  err-ne-ok, ok-injective, lt→ltb,
}
use todero_protocol_native.Base.BTreeMap.{get, get-insert}
use todero_protocol_native.Store.{
  cas_conflict, Entry, Shard, SessionRecord, VersionedRecord, StoreError, InMemorySessionStore,
  shard_at, set_shard, shard_index, effective_entry, versioned, map_entry, same_version, next_entry,
  load_shard, compare_and_swap_shard, load, compare_and_swap,
}
use todero_protocol_native.Store.Shards.{
  length-set_shard, shard_at-set_shard, shard_at-set_shard_other, live, effective_entry-live,
  get-effective_entry,
}

-- The entry that the store holds for an id.
unfoldable pub entry_at : ℕ → InMemorySessionStore → Option Entry
entry_at cid self = get cid (shard_at (shard_index self cid) self.shards)

pub load-entry_at :
    (cid now : ℕ) (self : InMemorySessionStore)
    → (load cid now self).0 ≡ map_entry versioned (live now (entry_at cid self))
unfolding load load_shard entry_at
load-entry_at cid now self =
    ap (map_entry versioned)
      (effective_entry-live cid now (shard_at (shard_index self cid) self.shards))

true≢false : true ≢ false
true≢false e = cc

pub ==_false : (a b : ℕ) → a ≢ b → (a == b) ≡ false
==_false a b h = ground arith

abbrev pub written : ℕ → Shard → InMemorySessionStore → InMemorySessionStore
written cid map self = record { shards = set_shard (shard_index self cid) map self.shards }

-- An operation writes its shard: what the store holds for an id of that shard is what the new one
-- holds, and all other shards are kept.
entry_at-written :
    (i cid : ℕ) (map : Shard) (self : InMemorySessionStore)
    → 0 < length self.shards
    → entry_at i (written cid map self)
      ≡ (if shard_index self cid == shard_index self i then get i map else entry_at i self)
unfolding entry_at
entry_at-written i cid map self h =
    let n = length self.shards in
    ap (λ k. get i (shard_at (i % k) (set_shard (cid % n) map self.shards)))
      (length-set_shard (cid % n) map self.shards)
    ∙ (elim (Bool-cases (cid % n == i % n)) [
      | inl e ↦ rw e (
          ap (λ k. get i (shard_at k (set_shard (cid % n) map self.shards)))
            (sym ((==_iff (cid % n) (i % n)).0 e))
          ∙ ap (get i) (shard_at-set_shard (cid % n) map self.shards (omega (arith, h))))
      | inr e ↦ rw e (
          ap (get i) (
            shard_at-set_shard_other (cid % n) (i % n) map self.shards
              (λ same. true≢false (sym ((==_iff (cid % n) (i % n)).1 same) ∙ e))))
    ])

pub kept_other :
    (i cid : ℕ) (map : Shard) (self : InMemorySessionStore)
    → 0 < length self.shards
    → get i map ≡ get i (shard_at (shard_index self cid) self.shards)
    → entry_at i (written cid map self) ≡ entry_at i self
unfolding entry_at
kept_other i cid map self h kept =
    entry_at-written i cid map self h
    ∙ (elim (Bool-cases (shard_index self cid == shard_index self i)) [
      | inl e ↦ rw e (
          kept
          ∙ ap (λ k. get i (shard_at k self.shards))
              ((==_iff (shard_index self cid) (shard_index self i)).0 e))
      | inr e ↦ rw e
    ])

pub written_own :
    (cid : ℕ) (map : Shard) (self : InMemorySessionStore)
    → 0 < length self.shards
    → entry_at cid (written cid map self) ≡ get cid map
written_own cid map self h =
    entry_at-written cid cid map self h ∙ rw (==_refl (shard_index self cid))

not-eq-false : (b : Bool) → not b ≡ false → b ≡ true
not-eq-false true e = refl
not-eq-false false e = cc

module _ (cid : ℕ) (expected : Option ℕ) (rec : SessionRecord) (ttl now : ℕ) where
  swapped_other :
      (i : ℕ) (map : Shard)
      → cid ≢ i
      → get i (compare_and_swap_shard cid expected rec ttl now map).1 ≡ get i map
  unfolding compare_and_swap_shard
  swapped_other i map h =
      let r = effective_entry cid now map in
      let kept : get i r.1 ≡ get i map =
        get-effective_entry i cid now map ∙ rw (==_false cid i h) in
      if-elim {A = Result StoreError VersionedRecord × Shard} (λ p. get i p.1 ≡ get i map)
        (not (same_version (map_entry (λ e. e.version) r.0) expected)) (λ _. kept)
        (λ _. get-insert i cid _ r.1 ∙ rw (==_false cid i h) kept)

  -- What a successful swap leaves in its shard, and what it has found.
  swapped_own :
      (map : Shard) (v : VersionedRecord)
      → (compare_and_swap_shard cid expected rec ttl now map).0 ≡ ok v
      → (get cid (compare_and_swap_shard cid expected rec ttl now map).1
          ≡ some (next_entry (effective_entry cid now map).0 rec ttl now))
        × (versioned (next_entry (effective_entry cid now map).0 rec ttl now) ≡ v)
  unfolding compare_and_swap_shard
  swapped_own map v =
      let r = effective_entry cid now map in
      let entry = next_entry r.0 rec ttl now in
      if-elim {A = Result StoreError VersionedRecord × Shard}
        (λ p. p.0 ≡ ok v → (get cid p.1 ≡ some entry) × (versioned entry ≡ v))
        (not (same_version (map_entry (λ e. e.version) r.0) expected)) (λ _ e. absurd (err-ne-ok e))
        (λ _ e. (get-insert cid cid entry r.1 ∙ rw (==_refl cid), ok-injective e))

  -- A swap on one id changes what the store holds for no other id, whether it succeeds or not.
  pub compare_and_swap-other :
      (i : ℕ) (self : InMemorySessionStore)
      → 0 < length self.shards
      → cid ≢ i
      → entry_at i (compare_and_swap cid expected rec ttl now self).1 ≡ entry_at i self
  unfolding compare_and_swap
  compare_and_swap-other i self h other = kept_other i cid _ self h (swapped_other i _ other)

  -- A successful swap is what `load` gives from then on until it expires.
  pub load-compare_and_swap :
      (self : InMemorySessionStore) (v : VersionedRecord) (later : ℕ)
      → 0 < length self.shards
      → (compare_and_swap cid expected rec ttl now self).0 ≡ ok v
      → later < v.expires_at_ms
      → (load cid later (compare_and_swap cid expected rec ttl now self).1).0 ≡ some v
  unfolding compare_and_swap
  load-compare_and_swap self v later h e before =
      let map = shard_at (shard_index self cid) self.shards in
      let (found, same) = swapped_own map v e in
      let entry = next_entry (effective_entry cid now map).0 rec ttl now in
      load-entry_at cid later _
      ∙ ap (λ o. map_entry versioned (live later o)) (written_own cid _ self h ∙ found)
      ∙ rw
          (lt→ltb later entry.expires_at_ms (omega (arith, before, ap (λ v. v.expires_at_ms) same)))
          (ap some same)

  swapped_match :
      (map : Shard) (v : VersionedRecord)
      → (compare_and_swap_shard cid expected rec ttl now map).0 ≡ ok v
      → same_version (map_entry (λ e. e.version) (effective_entry cid now map).0) expected ≡ true
  unfolding compare_and_swap_shard
  swapped_match map v =
      let found =
        same_version (map_entry (λ e. e.version) (effective_entry cid now map).0) expected in
      if-elim {A = Result StoreError VersionedRecord × Shard} (λ r. r.0 ≡ ok v → found ≡ true)
        (not found) (λ _ e. absurd (err-ne-ok e)) (λ same _. not-eq-false found same)

  -- The version after a swap is another than the one that it has found.
  next_version :
      (current : Option Entry)
      → same_version (map_entry (λ e. e.version) current) expected ≡ true
      → (next_entry current rec ttl now).version < 2 ^ 64 - 1
      → same_version (some (next_entry current rec ttl now).version) expected ≡ false
  unfolding next_entry
  next_version current same h = ground arith

  conflicting :
      (rec2 : SessionRecord) (ttl2 later : ℕ) (map : Shard) (entry : Entry)
      → (effective_entry cid later map).0 ≡ some entry
      → same_version (some entry.version) expected ≡ false
      → (compare_and_swap_shard cid expected rec2 ttl2 later map).0
        ≡ err (cas_conflict expected (some entry.version))
  unfolding compare_and_swap_shard
  conflicting rec2 ttl2 later map entry e other = rw (e, other)

  -- After a successful swap, and as long as its record has not expired, a second one that expects the
  -- same version is refused with a conflict that names the new version: of two writers that have
  -- read the same version, one wins. The version is below the last of 64 bits.
  pub compare_and_swap-again :
      (self : InMemorySessionStore) (v : VersionedRecord) (rec2 : SessionRecord) (ttl2 later : ℕ)
      → 0 < length self.shards
      → (compare_and_swap cid expected rec ttl now self).0 ≡ ok v
      → v.version < 2 ^ 64 - 1
      → later < v.expires_at_ms
      → (compare_and_swap cid expected rec2 ttl2 later
          (compare_and_swap cid expected rec ttl now self).1).0
        ≡ err (cas_conflict expected (some v.version))
  unfolding compare_and_swap entry_at
  compare_and_swap-again self v rec2 ttl2 later h e low before =
      let map = shard_at (shard_index self cid) self.shards in
      let (found, same) = swapped_own map v e in
      let entry = next_entry (effective_entry cid now map).0 rec ttl now in
      let version : entry.version ≡ v.version = ap (λ v. v.version) same in
      let expiry : entry.expires_at_ms ≡ v.expires_at_ms = ap (λ v. v.expires_at_ms) same in
      let swapped = (compare_and_swap_shard cid expected rec ttl now map).1 in
      let self1 = written cid swapped self in
      let map1 = shard_at (shard_index self1 cid) self1.shards in
      let held = written_own cid swapped self h ∙ found in
      let live_still =
        effective_entry-live cid later map1
        ∙ ap (live later) held
        ∙ rw (lt→ltb later entry.expires_at_ms (omega (arith, before, expiry))) in
      conflicting rec2 ttl2 later map1 entry live_still (
        next_version (effective_entry cid now map).0 (swapped_match map v e)
          (omega (arith, low, version)))
      ∙ ap (λ n. err (cas_conflict expected (some n))) version
