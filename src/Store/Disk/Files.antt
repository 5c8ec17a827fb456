-- ===== src/Store/Disk/Files.antt =====
-- The operations of `DiskSessionStore` of v3-store/src/lib.rs, one call after the other. A write to the
-- files comes after the lock on the entries is released (`load` alone keeps it), so where another call
-- can come in between, the part before and the part after it are definitions of their own: `put_entry`
-- and `append_entry` of a swap or an upsert, `snapshot_payload` and `write_snapshot` of a compaction.
-- `answer` is what the system answers to an append.
use todero_protocol_native.Base.{
  ℕ, not, List, [], ◌∷◌, Option, none, some, Result, ok, err, ◌>>=◌, ◌>>◌, if◌then◌else◌, ltb, ◌==◌,
}
use todero_protocol_native.Base.BTreeMap.{get, remove, insert}
use todero_protocol_native.Store.{
  SessionRecord, VersionedRecord, StoreError, cas_conflict, serialization, io, Entry, Shard,
  versioned, map_entry, same_version, next_entry,
}
use todero_protocol_native.Store.Scan.{expired_keys}
use todero_protocol_native.Store.Shards.{live}
use todero_protocol_native.Store.Disk.{
  Serde, DiskOp, upsert_op, delete_op, DiskSnapshotEntry, session_schema_version, map_err,
  encode_session_record, Disk, DiskSessionStore, Answer, Append, appended, refused,
}

abbrev pub remove_all : List ℕ → Shard → Shard
remove_all [] map = map
remove_all (cid ∷ cids) map = remove_all cids (remove cid map)

module _ (serde : Serde) where
  open serde use {
    Data, Line, Log, Image, op_to_vec, calc_checksum, entry_to_vec, append_line, snapshot_to_vec,
    empty_log, iter,
  }

  -- `OpenOptions::create(true).append(true)`
  abbrev pub log_or_new : Option Log → Log
  log_or_new none = empty_log
  log_or_new (some log) = log

  -- The line that an operation is logged as.
  unfoldable pub log_line : DiskOp Data → Result StoreError Line
  log_line op = map_err serialization (op_to_vec op) >>= (λ op_bytes.
      map_err serialization (entry_to_vec (record { op = op; checksum = calc_checksum op_bytes })))

  unfoldable pub write_line :
      Append Log → Line → Disk serde → Result StoreError (Unit {0}) × Disk serde
  write_line appended line disk =
      (ok tt, record disk { log = some (append_line line (log_or_new disk.log)) })
  write_line (refused reason log) line disk = (err (io reason), record disk { log = some log })

  unfoldable pub append_op :
      DiskOp Data → Append Log → Disk serde → Result StoreError (Unit {0}) × Disk serde
  append_op op answer disk = elim (log_line op) [
    | err e ↦ (err e, disk)
    | ok line ↦ write_line answer line disk
  ]

  -- The `match` of `load` on the entry that it has found.
  unfoldable pub load_current :
      ℕ
      → ℕ
      → Append Log
      → DiskSessionStore serde
      → Option Entry
      → Result StoreError (Option VersionedRecord) × DiskSessionStore serde
  load_current cid now_ms answer self none = (ok none, self)
  load_current cid now_ms answer self (some entry) =
      let r = append_op (delete_op cid) answer self.disk in
      if ltb now_ms entry.expires_at_ms
      then (ok (some (versioned entry)), self)
      else (r.0 >> ok none, record { entries = remove cid self.entries; disk = r.1 })

  unfoldable pub load :
      ℕ
      → ℕ
      → Append Log
      → DiskSessionStore serde
      → Result StoreError (Option VersionedRecord) × DiskSessionStore serde
  load cid now_ms answer self = load_current cid now_ms answer self (get cid self.entries)

  -- What `compare_and_swap` and `upsert` do before they release the lock, once the record is encoded.
  abbrev pub put_entry : ℕ → Entry → DiskSessionStore serde → DiskSessionStore serde
  put_entry cid entry self = record self { entries = insert cid entry self.entries }

  -- What they do after it.
  abbrev pub append_entry :
      ℕ
      → Entry
      → Data
      → Append Log
      → DiskSessionStore serde
      → Result StoreError VersionedRecord × DiskSessionStore serde
  append_entry cid entry encoded answer self =
      let r =
        append_op (upsert_op cid entry.version entry.expires_at_ms encoded) answer self.disk in
      (r.0 >> ok (versioned entry), record self { disk = r.1 })

  -- The whole of it, with no other call in between.
  unfoldable pub write_entry :
      ℕ
      → Entry
      → Append Log
      → DiskSessionStore serde
      → Result StoreError VersionedRecord × DiskSessionStore serde
  write_entry cid entry answer self = elim (encode_session_record serde entry.record_) [
    | err e ↦ (err e, self)
    | ok encoded ↦ append_entry cid entry encoded answer (put_entry cid entry self)
  ]

  unfoldable pub compare_and_swap :
      ℕ
      → Option ℕ
      → SessionRecord
      → ℕ
      → ℕ
      → Append Log
      → DiskSessionStore serde
      → Result StoreError VersionedRecord × DiskSessionStore serde
  compare_and_swap cid expected_version new_record ttl_ms now_ms answer self =
      let current = live now_ms (get cid self.entries) in
      let current_version = map_entry (λ e. e.version) current in
      if not (same_version current_version expected_version)
      then (err (cas_conflict expected_version current_version), self)
      else write_entry cid (next_entry current new_record ttl_ms now_ms) answer self

  unfoldable pub upsert :
      ℕ
      → SessionRecord
      → ℕ
      → ℕ
      → Append Log
      → DiskSessionStore serde
      → Result StoreError VersionedRecord × DiskSessionStore serde
  upsert cid new_record ttl_ms now_ms answer self =
      let current = live now_ms (get cid self.entries) in
      write_entry cid (next_entry current new_record ttl_ms now_ms) answer self

  unfoldable pub delete :
      ℕ
      → Append Log
      → DiskSessionStore serde
      → Result StoreError (Unit {0}) × DiskSessionStore serde
  delete cid answer self =
      let r = append_op (delete_op cid) answer self.disk in
      (r.0, record { entries = remove cid self.entries; disk = r.1 })

  -- The loop that logs the removals, up to the first that fails.
  unfoldable pub append_deletes :
      List ℕ → (ℕ → Append Log) → Disk serde → Result StoreError (Unit {0}) × Disk serde
  append_deletes [] answers disk = (ok tt, disk)
  append_deletes (cid ∷ cids) answers disk =
      let r = append_op (delete_op cid) (answers cid) disk in
      let rest = append_deletes cids answers r.1 in elim r.0 [ err e ↦ (err e, r.1) | ok _ ↦ rest ]

  unfoldable pub scan_expired :
      ℕ
      → ℕ
      → (ℕ → Append Log)
      → DiskSessionStore serde
      → Result StoreError (List ℕ) × DiskSessionStore serde
  scan_expired now_ms limit answers self =
      let expired = expired_keys now_ms limit 0 (iter self.entries) [] in
      let r = append_deletes expired answers self.disk in
      if limit == 0
      then (ok [], self)
      else (r.0 >> ok expired, record { entries = remove_all expired self.entries; disk = r.1 })

  -- The loop of `compact` over the entries.
  unfoldable pub snapshot_entries :
      List (ℕ × Entry) → Result StoreError (List (DiskSnapshotEntry Data))
  snapshot_entries [] = ok []
  snapshot_entries ((cid, entry) ∷ entries) = do
    bytes ← encode_session_record serde entry.record_
    rest ← snapshot_entries entries
    ok (
        record {
          cid = cid;
          version = entry.version;
          expires_at_ms = entry.expires_at_ms;
          bytes = bytes;
        }
        ∷ rest)

  -- The text of the snapshot, whose entries are read under the lock.
  unfoldable pub snapshot_payload : Shard → Result StoreError Image
  snapshot_payload entries = snapshot_entries (iter entries) >>= (λ items.
      map_err serialization
        (snapshot_to_vec (record { schema_version = session_schema_version; entries = items })))

  -- What `compact` does after the lock is released. `write_tmp`, `rename` and `truncate` answer the
  -- three writes. A rename puts the whole snapshot in place at once.
  abbrev pub write_snapshot :
      Answer
      → Answer
      → Answer
      → Image
      → DiskSessionStore serde
      → Result StoreError (Unit {0}) × DiskSessionStore serde
  write_snapshot write_tmp rename truncate payload self = elim write_tmp [
    | err e ↦ (err (io e), self)
    | ok _ ↦ elim rename [
      | err e ↦ (err (io e), self)
      | ok _ ↦
          let renamed = record self.disk { snapshot = some payload } in
          elim truncate [
            | err e ↦ (err (io e), record self { disk = renamed })
            | ok _ ↦ (ok tt, record self { disk = record renamed { log = some empty_log } })
          ]
    ]
  ]

  -- The whole of it, with no other call in between.
  unfoldable pub compact :
      Answer
      → Answer
      → Answer
      → DiskSessionStore serde
      → Result StoreError (Unit {0}) × DiskSessionStore serde
  compact write_tmp rename truncate self = elim (snapshot_payload self.entries) [
    | err e ↦ (err e, self)
    | ok payload ↦ write_snapshot write_tmp rename truncate payload self
  ]
