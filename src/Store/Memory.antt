-- ===== src/Store/Memory.antt =====
-- The in-memory store of v3-store/src/lib.rs keeps the promises of the trait `SessionStore`.
use todero_protocol_native.Base.{
  ◌≡◌, ◌≢◌, refl, sym, ap, ◌∙◌, ℕ, ◌<◌, Bool, true, false, not, none, Option, ok, err, Result, inl,
  inr, if◌then◌else◌, ◌==◌, ==_refl, ==_iff, Bool-cases, length, List, [], ◌%◌, if-elim, arith,
}
use todero_protocol_native.Base.BTreeMap.{get, get-insert, get-remove, insert, remove}
use todero_protocol_native.Store
use todero_protocol_native.Store.{
  InMemorySessionStore, Entry, Shard, SessionRecord, VersionedRecord, StoreError, shard_at,
  shard_index, set_shard, effective_entry, load_shard, compare_and_swap_shard, upsert_shard,
  map_entry, versioned, same_version, next_entry, cas_conflict,
}
use todero_protocol_native.Store.Shards.{
  live, length-set_shard, effective_entry-live, get-effective_entry,
}
use todero_protocol_native.Store.Versions.{
  entry_at, load-entry_at, written, kept_other, written_own, ==_false,
}
use todero_protocol_native.Store.Contract.{
  SessionStore, AgreeFrom, stored, erased, swap_result, swapped, live-live,
}
use todero_protocol_native.Store.Scan.{scan_shards, scan_expired, scan_expired-length}
use todero_protocol_native.Store.Expiry.{Iteration, scan_shards-AgreeFrom, scan_shards-shards}

==-eq-false : (a b : ℕ) → (a == b) ≡ false → a ≢ b
==-eq-false a b h = ground arith

-- An operation that changes at most the entry of its id in its shard changes no other in the store.
entry_at-written_if :
    (i cid : ℕ) (map : Shard) (self : InMemorySessionStore)
    → 0 < length self.shards
    → (cid ≢ i → get i map ≡ get i (shard_at (shard_index self cid) self.shards))
    → entry_at i (written cid map self) ≡ (if cid == i then get cid map else entry_at i self)
entry_at-written_if i cid map self h other = elim (Bool-cases (cid == i)) [
  | inl e ↦ rw e (
      ap (λ k. entry_at k (written cid map self)) (sym ((==_iff cid i).0 e))
      ∙ written_own cid map self h)
  | inr e ↦ rw e (kept_other i cid map self h (other (==-eq-false cid i e)))
]

module _ (cid now : ℕ) (self : InMemorySessionStore) (h : 0 < length self.shards) where
  abbrev pub own : Shard
  own = shard_at (shard_index self cid) self.shards

  abbrev pub found : Option Entry × Shard
  found = effective_entry cid now own

  found_live : found.0 ≡ live now (entry_at cid self)
  unfolding entry_at
  found_live = effective_entry-live cid now own

  found_other : (i : ℕ) → cid ≢ i → get i found.1 ≡ get i own
  found_other i other = get-effective_entry i cid now own ∙ rw (==_false cid i other)

  -- Looking an id up removes its entry only where it has expired.
  pub found_held : (i : ℕ) → AgreeFrom now (entry_at i (written cid found.1 self)) (entry_at i self)
  unfolding entry_at
  found_held i later le = elim (Bool-cases (cid == i)) [
    | inl e ↦
        let same : get cid own ≡ entry_at i self = ap (λ k. entry_at k self) ((==_iff cid i).0 e) in
        ap (live later) (
          entry_at-written_if i cid found.1 self h (found_other i)
          ∙ (rw e)
          ∙ get-effective_entry cid cid now own
          ∙ rw (==_refl cid))
        ∙ live-live now later _ le
        ∙ ap (live later) same
    | inr e ↦ ap (live later) (entry_at-written_if i cid found.1 self h (found_other i) ∙ rw e)
  ]

  -- What the store holds after an entry is put in the shard that has been looked up.
  inserted_held :
      (entry : Entry) (i : ℕ)
      → entry_at i (written cid (insert cid entry found.1) self)
        ≡ stored cid entry i (entry_at i self)
  inserted_held entry i =
      let other : cid ≢ i → get i (insert cid entry found.1) ≡ get i own =
        λ ne. get-insert i cid entry found.1 ∙ (rw (==_false cid i ne)) ∙ found_other i ne in
      let own_is = get-insert cid cid entry found.1 ∙ rw (==_refl cid) in
      entry_at-written_if i cid _ self h other
      ∙ ap (λ o. if cid == i then o else entry_at i self) own_is

module _ (cid : ℕ) (expected : Option ℕ) (r : SessionRecord) (ttl now : ℕ) where
  abbrev pub conflicts : Option Entry → Bool
  conflicts current = not (same_version (map_entry (λ e. e.version) current) expected)

  shard_returns :
      (map : Shard)
      → (compare_and_swap_shard cid expected r ttl now map).0
        ≡ swap_result expected r ttl now (effective_entry cid now map).0
  unfolding compare_and_swap_shard swap_result
  shard_returns map =
      let found = effective_entry cid now map in
      let entry = next_entry found.0 r ttl now in
      let reason = cas_conflict expected (map_entry (λ e. e.version) found.0) in
      elim (conflicts found.0)
        as (λ b.
          ◌≡◌ {A = Result StoreError VersionedRecord}
            (if◌then◌else◌ {A = Result StoreError VersionedRecord × Shard} b (err reason, found.1)
              (ok (versioned entry), insert cid entry found.1)).0
            (if b then err reason else ok (versioned entry))) [ true ↦ refl | false ↦ refl ]

  module _ (self : InMemorySessionStore) (h : 0 < length self.shards) where
    pub swap_returned :
        (Store.compare_and_swap cid expected r ttl now self).0
        ≡ swap_result expected r ttl now (live now (entry_at cid self))
    unfolding Store.compare_and_swap
    swap_returned =
        shard_returns _ ∙ ap (swap_result expected r ttl now) (found_live cid now self h)

    pub swap_kept :
        (i : ℕ)
        → AgreeFrom now
            (entry_at i (Store.compare_and_swap cid expected r ttl now self).1)
            (swapped cid expected r ttl now (live now (entry_at cid self)) i (entry_at i self))
    unfolding Store.compare_and_swap compare_and_swap_shard swapped
    swap_kept i later le =
        let f = found cid now self h in
        let entry = next_entry f.0 r ttl now in
        let reason = cas_conflict expected (map_entry (λ e. e.version) f.0) in
        (elim (conflicts f.0)
          as (λ b.
            live later (
              entry_at i (
                written cid
                  (if◌then◌else◌ {A = Result StoreError VersionedRecord × Shard} b (err reason, f.1)
                    (ok (versioned entry), insert cid entry f.1)).1
                  self))
            ≡ live later (if b then entry_at i self else stored cid entry i (entry_at i self))) [
              | true ↦ found_held cid now self h i later le
              | false ↦ ap (live later) (inserted_held cid now self h entry i)
            ])
        ∙ ap (λ o. live later (swapped cid expected r ttl now o i (entry_at i self)))
            (found_live cid now self h)

    pub upsert_returned :
        (Store.upsert cid r ttl now self).0
        ≡ ok (versioned (next_entry (live now (entry_at cid self)) r ttl now))
    unfolding Store.upsert upsert_shard
    upsert_returned = ap (λ o. ok (versioned (next_entry o r ttl now))) (found_live cid now self h)

    pub upsert_kept :
        (i : ℕ)
        → entry_at i (Store.upsert cid r ttl now self).1
          ≡ stored cid (next_entry (live now (entry_at cid self)) r ttl now) i (entry_at i self)
    unfolding Store.upsert upsert_shard
    upsert_kept i =
        inserted_held cid now self h (next_entry (found cid now self h).0 r ttl now) i
        ∙ ap (λ o. stored cid (next_entry o r ttl now) i (entry_at i self))
            (found_live cid now self h)

pub written-length :
    (cid : ℕ) (map : Shard) (self : InMemorySessionStore)
    → 0 < length self.shards
    → 0 < length (written cid map self).shards
written-length cid map self h =
    omega (arith, h, length-set_shard (shard_index self cid) map self.shards)

pub delete_held :
    (cid : ℕ) (self : InMemorySessionStore)
    → 0 < length self.shards
    → (i : ℕ) → entry_at i (Store.delete cid self) ≡ erased cid i (entry_at i self)
unfolding Store.delete
delete_held cid self h i =
    let map = shard_at (shard_index self cid) self.shards in
    let other : cid ≢ i → get i (remove cid map) ≡ get i map =
      λ ne. get-remove i cid map ∙ rw (==_false cid i ne) in
    let own_is = get-remove cid cid map ∙ rw (==_refl cid) in
    entry_at-written_if i cid _ self h other
    ∙ ap (λ o. if cid == i then o else entry_at i self) own_is

module _ (order : Iteration) (now limit : ℕ) (self : InMemorySessionStore) where
  pub scanned_held :
      (i : ℕ)
      → AgreeFrom now (entry_at i (scan_expired order.iter now limit self).1) (entry_at i self)
  unfolding scan_expired entry_at
  scanned_held i later le =
      let r = scan_shards order.iter now limit self.shards [] in
      let same : length r.1 ≡ length self.shards =
        scan_shards-shards order now limit self.shards [] in
      if-elim {A = List ℕ × InMemorySessionStore}
        (λ p. live later (entry_at i p.1) ≡ live later (entry_at i self)) (limit == 0) (λ _. refl)
        (λ _.
          ap (λ n. live later (get i (shard_at (i % n) r.1))) same
          ∙ scan_shards-AgreeFrom order now limit self.shards [] (shard_index self i) i later le)

  pub scanned-length :
      0 < length self.shards → 0 < length (scan_expired order.iter now limit self).1.shards
  unfolding scan_expired
  scanned-length h =
      if-elim {A = List ℕ × InMemorySessionStore} (λ p. 0 < length p.1.shards) (limit == 0) (λ _. h)
        (λ _. omega (arith, h, scan_shards-shards order now limit self.shards []))

-- Every operation of the in-memory store, with at least one shard, does what the trait promises.
unfoldable pub in_memory : Iteration → SessionStore InMemorySessionStore
unfolding Store.load load_shard Store.compare_and_swap Store.upsert Store.delete
in_memory order = record {
  load = λ cid now self. let r = Store.load cid now self in (ok r.0, r.1);
  compare_and_swap = Store.compare_and_swap;
  upsert = Store.upsert;
  delete = λ cid self. (ok tt, Store.delete cid self);
  scan_expired = λ now limit self. let r = scan_expired order.iter now limit self in (ok r.0, r.1);
  IsSound = λ self. 0 < length self.shards;
  held = entry_at;
  load_sound = λ cid now self h. written-length cid _ self h;
  load_result = λ cid now self h. ap ok (load-entry_at cid now self);
  load_held = λ cid now self h. found_held cid now self h;
  swap_sound = λ cid expected r ttl now self h. written-length cid _ self h;
  swap_returns = swap_returned;
  swap_held = swap_kept;
  upsert_sound = λ cid r ttl now self h. written-length cid _ self h;
  upsert_returns = λ cid r ttl now. upsert_returned cid none r ttl now;
  upsert_held = λ cid r ttl now. upsert_kept cid none r ttl now;
  delete_sound = λ cid self h. written-length cid _ self h;
  delete_returns = λ cid self h. refl;
  delete_held = delete_held;
  scan_sound = λ now limit self h. scanned-length order now limit self h;
  scan_returns = λ now limit self h. (
    (scan_expired order.iter now limit self).0,
    refl,
    scan_expired-length order.iter now limit self,
  );
  scan_held = λ now limit self h i. scanned_held order now limit self i;
}
