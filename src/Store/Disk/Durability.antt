-- ===== src/Store/Disk/Durability.antt =====
-- Each operation of the disk store of v3-store/src/lib.rs keeps what is in memory in the files.
use todero_protocol_native.Base.{
  ◌≡◌, refl, ap, ◌∙◌, ℕ, not, List, [], ◌∷◌, some, none, Option, ok, Result, if-elim, ltb, ◌==◌,
  ◌>>◌, length, ◌<◌, ◌≤◌, false, arith,
}
use todero_protocol_native.Base.BTreeMap.{get, insert, remove}
use todero_protocol_native.Store.{
  SessionRecord, VersionedRecord, StoreError, Entry, Shard, versioned, map_entry, same_version,
  next_entry,
}
use todero_protocol_native.Store.Shards.{live}
use todero_protocol_native.Store.Contract.{AgreeFrom}
use todero_protocol_native.Store.Scan.{expired_keys}
use todero_protocol_native.Store.Expiry.{
  Iteration, expired_keys-IsGone, expired_keys-length, remove_all-AgreeFrom,
}
use todero_protocol_native.Store.Disk.{
  Serde, DiskOp, upsert_op, delete_op, DiskSessionStore, appended,
}
use todero_protocol_native.Store.Disk.Files.{
  append_op, write_line, write_entry, load, load_current, compare_and_swap, upsert, delete,
  remove_all, append_deletes, scan_expired,
}
use todero_protocol_native.Store.Disk.Replay.{apply_op}
use todero_protocol_native.Store.Disk.Changes.{Change, put, drop_, change}
use todero_protocol_native.Store.Disk.Laws.{
  SerdeLaws, decode-encode_session_record, replay_line-log_line,
}
use todero_protocol_native.Store.Disk.Recovery.{IsDurable, IsDurable-append}

==_false_zero : (n : ℕ) → (n == 0) ≡ false → 0 < n
==_false_zero n h = ground arith

module _ {serde : Serde} (laws : SerdeLaws serde) where
  -- An operation that is logged while its change is made in memory.
  pub logged :
      (self : DiskSessionStore serde) (op : DiskOp serde.Data) (c : Change)
      → IsDurable self
      → ((m : Shard) → apply_op serde op m ≡ ok (change c m))
      → IsDurable {serde = serde} (record {
        entries = change c self.entries;
        disk = (append_op serde op appended self.disk).1;
      })
        × ((append_op serde op appended self.disk).0 ≡ ok tt)
  unfolding append_op write_line
  logged self op c d is =
      let (line, to, from) = replay_line-log_line laws op in
      rw (to, append_op) (IsDurable-append laws self line c d (λ m. from m ∙ is m), refl)

  applied-drop :
      (cid : ℕ) (m : Shard) → apply_op serde (delete_op cid) m ≡ ok (change (drop_ cid) m)
  unfolding apply_op
  applied-drop cid m = refl

  pub logged-drop :
      (self : DiskSessionStore serde) (cid : ℕ)
      → IsDurable self
      → IsDurable {serde = serde} (record {
        entries = remove cid self.entries;
        disk = (append_op serde (delete_op cid) appended self.disk).1;
      })
        × ((append_op serde (delete_op cid) appended self.disk).0 ≡ ok tt)
  logged-drop self cid d = logged self (delete_op cid) (drop_ cid) d (applied-drop cid)

  -- Writing an entry succeeds, gives the entry back, and puts it in memory and in the log.
  pub write_entry-IsDurable :
      (self : DiskSessionStore serde) (cid : ℕ) (entry : Entry)
      → IsDurable self
      → IsDurable (write_entry serde cid entry appended self).1
        × ((write_entry serde cid entry appended self).0 ≡ ok (versioned entry))
        × ((write_entry serde cid entry appended self).1.entries ≡ insert cid entry self.entries)
  unfolding write_entry apply_op
  write_entry-IsDurable self cid entry d =
      let (bytes, to, from, migrating) = decode-encode_session_record laws entry.record_ in
      let op = upsert_op cid entry.version entry.expires_at_ms bytes in
      let (kept, fine) = logged self op (put cid entry) d (λ m. rw migrating) in
      rw (to, write_entry) (kept, ap (λ r. r >> ok (versioned entry)) fine, refl)

  load_current-IsDurable :
      (self : DiskSessionStore serde) (cid now : ℕ) (o : Option Entry)
      → IsDurable self
      → IsDurable (load_current serde cid now appended self o).1
  unfolding load_current
  load_current-IsDurable self cid now none d = d
  load_current-IsDurable self cid now (some entry) d =
      if-elim {A = Result StoreError (Option VersionedRecord) × DiskSessionStore serde}
        (λ p. IsDurable p.1) (ltb now entry.expires_at_ms) (λ _. d)
        (λ _. (logged-drop self cid d).0)

  pub load-IsDurable :
      (self : DiskSessionStore serde) (cid now : ℕ)
      → IsDurable self
      → IsDurable (load serde cid now appended self).1
  unfolding load
  load-IsDurable self cid now d = load_current-IsDurable self cid now (get cid self.entries) d

  pub compare_and_swap-IsDurable :
      (self : DiskSessionStore serde) (cid : ℕ) (expected : Option ℕ) (r : SessionRecord)
      (ttl now : ℕ)
      → IsDurable self
      → IsDurable (compare_and_swap serde cid expected r ttl now appended self).1
  unfolding compare_and_swap
  compare_and_swap-IsDurable self cid expected r ttl now d =
      let current = live now (get cid self.entries) in
      if-elim {A = Result StoreError VersionedRecord × DiskSessionStore serde} (λ p. IsDurable p.1)
        (not (same_version (map_entry (λ e. e.version) current) expected)) (λ _. d)
        (λ _. (write_entry-IsDurable self cid (next_entry current r ttl now) d).0)

  pub upsert-IsDurable :
      (self : DiskSessionStore serde) (cid : ℕ) (r : SessionRecord) (ttl now : ℕ)
      → IsDurable self
      → IsDurable (upsert serde cid r ttl now appended self).1
  unfolding upsert
  upsert-IsDurable self cid r ttl now d = (write_entry-IsDurable self cid _ d).0

  pub delete-IsDurable :
      (self : DiskSessionStore serde) (cid : ℕ)
      → IsDurable self
      → IsDurable (delete serde cid appended self).1
  unfolding delete
  delete-IsDurable self cid d = (logged-drop self cid d).0

  -- Removals that are logged one by one.
  deleted-IsDurable :
      (cids : List ℕ) (self : DiskSessionStore serde)
      → IsDurable self
      → IsDurable {serde = serde} (record {
        entries = remove_all cids self.entries;
        disk = (append_deletes serde cids (λ _. appended) self.disk).1;
      })
        × ((append_deletes serde cids (λ _. appended) self.disk).0 ≡ ok tt)
  unfolding append_deletes
  deleted-IsDurable [] self d = (d, refl)
  deleted-IsDurable (cid ∷ cids) self d =
      let (kept, fine) = logged-drop self cid d in
      rw (fine, append_deletes) (deleted-IsDurable cids _ kept)

  module _ (self : DiskSessionStore serde) (now limit : ℕ) (d : IsDurable self) where
    abbrev pub order : Iteration
    order = record { iter = serde.iter; get-iter = laws.iter-get }

    pub scan_expired-IsDurable : IsDurable (scan_expired serde now limit (λ _. appended) self).1
    unfolding scan_expired
    scan_expired-IsDurable =
        if-elim {A = Result StoreError (List ℕ) × DiskSessionStore serde} (λ p. IsDurable p.1)
          (limit == 0) (λ _. d) (λ _. (deleted-IsDurable _ self d).0)

    pub scan_expired-ok :
        (cids : List ℕ) × ((scan_expired serde now limit (λ _. appended) self).0 ≡ ok cids)
        × (length cids ≤ limit)
    unfolding scan_expired
    scan_expired-ok =
        let cids = expired_keys now limit 0 (serde.iter self.entries) [] in
        if-elim {A = Result StoreError (List ℕ) × DiskSessionStore serde}
          (λ p. (found : List ℕ) × (p.0 ≡ ok found) × (length found ≤ limit)) (limit == 0)
          (λ _. ([], refl, omega arith))
          (λ e. (
            cids,
            ap (λ r. r >> ok cids) (deleted-IsDurable cids self d).1,
            omega (
              arith,
              expired_keys-length now limit 0 (serde.iter self.entries) []
                  (omega (arith, ==_false_zero limit e)),
            ),
          ))

    pub scan_expired-AgreeFrom :
        (i : ℕ)
        → AgreeFrom now
            (get i (scan_expired serde now limit (λ _. appended) self).1.entries)
            (get i self.entries)
    unfolding scan_expired
    scan_expired-AgreeFrom i later le =
        if-elim {A = Result StoreError (List ℕ) × DiskSessionStore serde}
          (λ p. live later (get i p.1.entries) ≡ live later (get i self.entries)) (limit == 0)
          (λ _. refl)
          (λ _.
            remove_all-AgreeFrom now _ self.entries
              (expired_keys-IsGone now limit 0 order self.entries) i later le)
