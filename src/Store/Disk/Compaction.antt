-- ===== src/Store/Disk/Compaction.antt =====
-- `compact` of the disk store of v3-store/src/lib.rs, stopped after any of its writes.
use todero_protocol_native.Base.{◌≡◌, refl, sym, ◌∙◌, ℕ, List, [], ◌∷◌, some, ok, err}
use todero_protocol_native.Store.{Entry, Shard}
use todero_protocol_native.Store.Disk.{Serde, DiskSnapshotEntry, DiskSessionStore, Answer}
use todero_protocol_native.Store.Disk.Files.{snapshot_entries, snapshot_payload, compact}
use todero_protocol_native.Store.Disk.Replay.{insert_items, load_snapshot, replay_lines}
use todero_protocol_native.Store.Disk.Changes.{Agree, changes-again}
use todero_protocol_native.Store.Disk.Laws.{SerdeLaws, insert_pairs, decode-encode_session_record}
use todero_protocol_native.Store.Disk.Recovery.{IsDurable}

module _ {serde : Serde} (laws : SerdeLaws serde) where
  insert_items-snapshot_entries :
      (pairs : List (ℕ × Entry))
      → (items : List (DiskSnapshotEntry serde.Data)) × (snapshot_entries serde pairs ≡ ok items)
        × ((m : Shard) → insert_items serde items m ≡ ok (insert_pairs pairs m))
  unfolding snapshot_entries insert_items
  insert_items-snapshot_entries [] = ([], refl, λ m. refl)
  insert_items-snapshot_entries ((cid, entry) ∷ pairs) =
      let (bytes, to, from, migrating) = decode-encode_session_record laws entry.record_ in
      let (items, made, back) = insert_items-snapshot_entries pairs in
      let item : DiskSnapshotEntry serde.Data = record {
        cid = cid;
        version = entry.version;
        expires_at_ms = entry.expires_at_ms;
        bytes = bytes;
      } in
      (item ∷ items, rw (to, made), λ m. rw from (back _))

  -- A map is written to a snapshot that is read back as a map with the same entries.
  pub load_snapshot-payload :
      (m : Shard)
      → (image : serde.Image) × (base : Shard) × (snapshot_payload serde m ≡ ok image)
        × (load_snapshot serde (ok tt) image [] ≡ ok base)
        × Agree base m
  unfolding snapshot_payload load_snapshot
  load_snapshot-payload m =
      let (items, made, back) = insert_items-snapshot_entries (serde.iter m) in
      let (image, to, from, full) =
        laws.image_text (record { schema_version = 1; entries = items }) in
      (
        image,
        insert_pairs (serde.iter m) [],
        rw (made, to),
        rw (full, from, back []),
        laws.get-iter m,
      )

  -- The new snapshot in place, with the lines that the log has had before: they change nothing.
  renamed-IsDurable :
      (self : DiskSessionStore serde) (image : serde.Image) (base : Shard)
      → IsDurable self
      → load_snapshot serde (ok tt) image [] ≡ ok base
      → Agree base self.entries
      → IsDurable {serde = serde}
          (record self { disk = record self.disk { snapshot = some image } })
  renamed-IsDurable self image base d loaded agree = record {
    base = base;
    history = d.history;
    made = d.made;
    log_is = d.log_is;
    snapshot_is = loaded;
    replayed = d.replayed;
    same = λ i. changes-again d.made d.base base (λ j. agree j ∙ sym (d.same j)) i ∙ d.same i;
  }

  pub truncated-IsDurable :
      (self : DiskSessionStore serde) (image : serde.Image) (base : Shard)
      → load_snapshot serde (ok tt) image [] ≡ ok base
      → Agree base self.entries
      → IsDurable {serde = serde}
          (record self { disk = record { log = some serde.empty_log; snapshot = some image } })
  unfolding replay_lines
  truncated-IsDurable self image base loaded agree = record {
    base = base;
    history = [];
    made = [];
    log_is = refl;
    snapshot_is = loaded;
    replayed = λ m. refl;
    same = agree;
  }

  -- A compaction, whichever of its writes is the first to fail, keeps what is in memory in the files,
  -- and leaves the entries in memory.
  pub compact-IsDurable :
      (write_tmp rename truncate : Answer) (self : DiskSessionStore serde)
      → IsDurable self
      → IsDurable (compact serde write_tmp rename truncate self).1
        × ((compact serde write_tmp rename truncate self).1.entries ≡ self.entries)
  unfolding compact
  compact-IsDurable (err e) rename truncate self d =
      let (image, base, to, from, agree) = load_snapshot-payload self.entries in
      rw (to, compact) (d, refl)
  compact-IsDurable (ok u) (err e) truncate self d =
      let (image, base, to, from, agree) = load_snapshot-payload self.entries in
      rw (to, compact) (d, refl)
  compact-IsDurable (ok u) (ok v) (err e) self d =
      let (image, base, to, from, agree) = load_snapshot-payload self.entries in
      rw (to, compact) (renamed-IsDurable self image base d from agree, refl)
  compact-IsDurable (ok u) (ok v) (ok w) self d =
      let (image, base, to, from, agree) = load_snapshot-payload self.entries in
      rw (to, compact) (truncated-IsDurable self image base from agree, refl)
