-- ===== src/Store/Disk/Laws.antt =====
-- What the disk store of v3-store/src/lib.rs relies on of serde_json and std, and what follows for its
-- texts.
use todero_protocol_native.Base.{
  ◌≡◌, refl, ℕ, false, All, List, [], ◌∷◌, ◌++◌, map, some, ok, ==_refl,
}
use todero_protocol_native.Base.BTreeMap.{get, insert}
use todero_protocol_native.Store.{SessionRecord, Entry, Shard}
use todero_protocol_native.Store.Disk.{
  Serde, DiskOp, StoredSession, DiskLogEntry, DiskSnapshot, encode_session_record,
  decode_session_record, decode_schema, decode_session_record_migrating,
}
use todero_protocol_native.Store.Disk.Files.{log_line}
use todero_protocol_native.Store.Disk.Replay.{replay_line, apply_op}

-- A `HashMap` filled with pairs in the order of a list.
abbrev pub insert_pairs : List (ℕ × Entry) → Shard → Shard
insert_pairs [] m = m
insert_pairs ((cid, entry) ∷ pairs) m = insert_pairs pairs (insert cid entry m)

-- A log that the lines of a list have been written to.
abbrev pub written_from : (serde : Serde) → serde.Log → List serde.Line → serde.Log
written_from serde log [] = log
written_from serde log (line ∷ ls) = written_from serde (serde.append_line line log) ls

pub record SerdeLaws (serde : Serde) : Type 0 where
  -- Every value has a text, which is read back as the value.
  pub session_text :
      (s : StoredSession)
      → (d : serde.Data) × (serde.session_to_vec s ≡ ok d)
        × (serde.session_from_slice d ≡ ok s)
        × (serde.schema_of d ≡ ok (some s.schema_version))
  pub op_text : (op : DiskOp serde.Data) → (b : serde.OpBytes) × (serde.op_to_vec op ≡ ok b)
  pub line_text :
      (e : DiskLogEntry serde.Data)
      → (line : serde.Line) × (serde.entry_to_vec e ≡ ok line)
        × (serde.entry_from_str line ≡ ok e)
        × (serde.is_blank line ≡ false)
  pub image_text :
      (s : DiskSnapshot serde.Data)
      → (image : serde.Image) × (serde.snapshot_to_vec s ≡ ok image)
        × (serde.snapshot_from_slice image ≡ ok s)
        × (serde.is_empty_image image ≡ false)
  pub lines_written :
      (ls : List serde.Line) → serde.lines (written_from serde serde.empty_log ls) ≡ map ok ls
  -- The iterator of a map gives its entries, in some order.
  pub get-iter : (m : Shard) (i : ℕ) → get i (insert_pairs (serde.iter m) []) ≡ get i m
  pub iter-get : (m : Shard) → All (λ p. get p.0 m ≡ some p.1) (serde.iter m)

pub written_from-append :
    (serde : Serde) (log : serde.Log) (ls : List serde.Line) (line : serde.Line)
    → written_from serde log (ls ++ (line ∷ []))
      ≡ serde.append_line line (written_from serde log ls)
written_from-append serde log [] line = refl
written_from-append serde log (l ∷ ls) line =
    written_from-append serde (serde.append_line l log) ls line

module _ {serde : Serde} (laws : SerdeLaws serde) where
  -- A session record is written with the current schema, and both decoders give it back.
  pub decode-encode_session_record :
      (r : SessionRecord)
      → (d : serde.Data) × (encode_session_record serde r ≡ ok d)
        × (decode_session_record serde d ≡ ok r)
        × (decode_session_record_migrating serde d ≡ ok r)
  unfolding encode_session_record decode_session_record decode_schema
      decode_session_record_migrating
  decode-encode_session_record r =
      let (d, to, from, schema) = laws.session_text (record { schema_version = 1; record_ = r }) in
      (d, rw to, rw from, rw (schema, from))

  -- An operation is logged as a line that is replayed as the operation.
  pub replay_line-log_line :
      (op : DiskOp serde.Data)
      → (line : serde.Line) × (log_line serde op ≡ ok line)
        × ((m : Shard) → replay_line serde line m ≡ apply_op serde op m)
  unfolding log_line replay_line
  replay_line-log_line op =
      let (b, bytes) = laws.op_text op in
      let sum = serde.calc_checksum b in
      let (line, to, from, not_blank) = laws.line_text (record { op = op; checksum = sum }) in
      (line, rw (bytes, to), λ m. rw (not_blank, from, bytes, ==_refl sum))
