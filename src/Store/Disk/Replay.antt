-- ===== src/Store/Disk/Replay.antt =====
-- How `DiskSessionStore::new` of v3-store/src/lib.rs reads its files back: the snapshot, then the log.
use Prim.Native.String.{String}
use todero_protocol_native.Base.{
  not, List, [], ◌∷◌, Option, none, some, Result, ok, err, ◌>>=◌, ◌>>◌, refuse_if, if◌then◌else◌,
  ◌==◌,
}
use todero_protocol_native.Base.BTreeMap.{remove, insert}
use todero_protocol_native.Store.{
  StoreError, serialization, unsupported_schema_version, io, corrupt_log_entry, checksum_mismatch,
  Shard,
}
use todero_protocol_native.Store.Disk.{
  Serde, DiskOp, upsert_op, delete_op, DiskSnapshotEntry, session_schema_version, map_err,
  decode_session_record, decode_session_record_migrating, Disk, DiskSessionStore, Answer,
}

-- What the system answers to the calls of `new`.
pub record Opening : Type 0 where
  pub create_dir : Answer
  pub create_log : Answer
  pub read_snapshot : Answer
  pub open_log : Answer

module _ (serde : Serde) where
  open serde use {
    Data, Line, Log, Image, op_to_vec, calc_checksum, entry_from_str, is_blank, snapshot_from_slice,
    is_empty_image, empty_log, lines,
  }

  unfoldable pub insert_items : List (DiskSnapshotEntry Data) → Shard → Result StoreError Shard
  insert_items [] entries = ok entries
  insert_items (item ∷ items) entries = decode_session_record serde item.bytes >>= (λ r.
      insert_items items (
        insert item.cid
          (record { version = item.version; record_ = r; expires_at_ms = item.expires_at_ms })
          entries))

  unfoldable pub load_snapshot : Answer → Image → Shard → Result StoreError Shard
  load_snapshot read bytes entries =
      map_err io read
      >> (if is_empty_image bytes
          then ok entries
          else (map_err serialization (snapshot_from_slice bytes) >>= (λ snap.
              refuse_if (not (snap.schema_version == session_schema_version))
                (unsupported_schema_version snap.schema_version)
              >> insert_items snap.entries entries)))

  unfoldable pub apply_op : DiskOp Data → Shard → Result StoreError Shard
  apply_op (upsert_op cid version expires_at_ms bytes) entries =
      decode_session_record_migrating serde bytes >>= (λ r. ok (
        insert cid (record { version = version; record_ = r; expires_at_ms = expires_at_ms })
          entries))
  apply_op (delete_op cid) entries = ok (remove cid entries)

  abbrev pub or_corrupt {ℓ} : {A : Type ℓ} → Result String A → Result StoreError A
  or_corrupt (err e) = err corrupt_log_entry
  or_corrupt (ok a) = ok a

  -- A round of the loop over the lines.
  unfoldable pub replay_line : Line → Shard → Result StoreError Shard
  replay_line line entries =
      if is_blank line
      then ok entries
      else (or_corrupt (entry_from_str line) >>= (λ entry.
          map_err serialization (op_to_vec entry.op) >>= (λ op_bytes.
            refuse_if (not (calc_checksum op_bytes == entry.checksum)) checksum_mismatch
            >> apply_op entry.op entries)))

  unfoldable pub replay_lines : List (Result String Line) → Shard → Result StoreError Shard
  replay_lines [] entries = ok entries
  replay_lines (read ∷ reads) entries =
      map_err io read >>= (λ line. replay_line line entries >>= (λ next. replay_lines reads next))

  unfoldable pub replay_log : Answer → Log → Shard → Result StoreError Shard
  replay_log open_ log entries = map_err io open_ >> replay_lines (lines log) entries

  abbrev pub snapshot_or_none : Answer → Option Image → Result StoreError Shard
  snapshot_or_none read none = ok []
  snapshot_or_none read (some image) = load_snapshot read image []

  abbrev pub existing_log : Answer → Option Log → Result StoreError Log
  existing_log create none = map_err io create >> ok empty_log
  existing_log create (some log) = ok log

  unfoldable pub new : Opening → Disk serde → Result StoreError (DiskSessionStore serde)
  new answers disk = do
    map_err io answers.create_dir
    log ← existing_log answers.create_log disk.log
    loaded ← snapshot_or_none answers.read_snapshot disk.snapshot
    entries ← replay_log answers.open_log log loaded
    ok (record { entries = entries; disk = record disk { log = some log } })
