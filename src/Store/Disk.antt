-- ===== src/Store/Disk.antt =====
-- The log and snapshot store of v3-store/src/lib.rs. A `HashMap` of entries is an association list.
-- The files are a value, and each call takes what the system answers to its writes.
use Prim.Native.String.{String}
use todero_protocol_native.Base.{
  ℕ, ◌%◌, ◌^◌, ◌≡◌, Bool, true, false, not, List, [], ◌∷◌, ◌++◌, Option, none, some, Result, ok,
  err, ◌>>=◌, ◌>>◌, refuse_if, if◌then◌else◌, ltb, ◌==◌,
}
use todero_protocol_native.Store.{
  SessionRecord, StoreError, serialization, unsupported_schema_version, Entry, Shard,
}
pub mod Files
pub mod Replay
pub mod Laws
pub mod Changes
pub mod Recovery
pub mod Durability
pub mod Compaction
pub mod Promises
pub mod Runs
pub mod Equivalence
pub mod Failures
pub mod Races

abbrev pub session_schema_version : ℕ
session_schema_version = 1

pub record StoredSession : Type 0 where
  pub schema_version : ℕ
  pub record_ : SessionRecord

-- `Data` stands for the bytes of a serialised session.
pub data DiskOp (Data : Type 0) : Type 0 where
  -- `cid`, `version`, `expires_at_ms` and `data`
  upsert_op : ℕ → ℕ → ℕ → Data → DiskOp Data
  delete_op : ℕ → DiskOp Data

pub record DiskLogEntry (Data : Type 0) : Type 0 where
  pub op : DiskOp Data
  pub checksum : ℕ

pub record DiskSnapshotEntry (Data : Type 0) : Type 0 where
  pub cid : ℕ
  pub version : ℕ
  pub expires_at_ms : ℕ
  pub bytes : Data

pub record DiskSnapshot (Data : Type 0) : Type 0 where
  pub schema_version : ℕ
  pub entries : List (DiskSnapshotEntry Data)

-- The crates serde_json and std that the store serialises, hashes and iterates with. `Data`,
-- `OpBytes`, `Line`, `Image` and `Log` are the texts of a session, an operation, a line of the log, a
-- snapshot and the log.
pub record Serde : Type 1 where
  pub Data : Type 0
  pub OpBytes : Type 0
  pub Line : Type 0
  pub Image : Type 0
  pub Log : Type 0
  pub session_to_vec : StoredSession → Result String Data
  pub session_from_slice : Data → Result String StoredSession
  -- `value.get("schema_version").and_then(|v| v.as_u64())` of the parsed text
  pub schema_of : Data → Result String (Option ℕ)
  pub legacy_from_value : Data → Result String SessionRecord
  pub op_to_vec : DiskOp Data → Result String OpBytes
  pub calc_checksum : OpBytes → ℕ
  pub entry_to_vec : DiskLogEntry Data → Result String Line
  pub entry_from_str : Line → Result String (DiskLogEntry Data)
  -- `line.trim().is_empty()`
  pub is_blank : Line → Bool
  pub snapshot_to_vec : DiskSnapshot Data → Result String Image
  pub snapshot_from_slice : Image → Result String (DiskSnapshot Data)
  pub is_empty_image : Image → Bool
  pub empty_log : Log
  -- The log after `write_all(&line)` and `write_all(b"\n")`.
  pub append_line : Line → Log → Log
  pub lines : Log → List (Result String Line)
  -- The entries of a `HashMap` in the order of its iterator.
  pub iter : Shard → List (ℕ × Entry)

-- `r.map_err(..)`
abbrev pub map_err {ℓ} :
    {A : Type ℓ} → (String → StoreError) → Result String A → Result StoreError A
map_err f (ok a) = ok a
map_err f (err e) = err (f e)

abbrev pub or_zero : Option ℕ → ℕ
or_zero none = 0
or_zero (some n) = n

module _ (serde : Serde) where
  open serde use {session_to_vec, session_from_slice, schema_of, legacy_from_value, Data}

  unfoldable pub encode_session_record : SessionRecord → Result StoreError Data
  encode_session_record r =
      map_err serialization
        (session_to_vec (record { schema_version = session_schema_version; record_ = r }))

  unfoldable pub decode_session_record : Data → Result StoreError SessionRecord
  decode_session_record bytes = do
    payload ← map_err serialization (session_from_slice bytes)
    refuse_if (not (payload.schema_version == session_schema_version))
        (unsupported_schema_version payload.schema_version)
    ok payload.record_

  -- By the schema of the text, as the code's `match` has it.
  unfoldable pub decode_schema : ℕ → Data → Result StoreError SessionRecord
  decode_schema schema bytes =
      if schema == session_schema_version
      then decode_session_record bytes
      else if schema == 0
      then map_err serialization (legacy_from_value bytes)
      else err (unsupported_schema_version schema)

  unfoldable pub decode_session_record_migrating : Data → Result StoreError SessionRecord
  decode_session_record_migrating bytes =
      map_err serialization (schema_of bytes)
      >>= (λ version. decode_schema (or_zero version % 2 ^ 16) bytes)

-- The files of the store: `sessions.log` and `sessions.snapshot.json`, where they exist.
pub record Disk (serde : Serde) : Type 0 where
  pub log : Option serde.Log
  pub snapshot : Option serde.Image

pub record DiskSessionStore (serde : Serde) : Type 0 where
  pub entries : Shard
  pub disk : Disk serde

-- What the system answers to a call that writes, or opens, a file.
abbrev pub Answer : Type 0
Answer = Result String (Unit {0})

-- What it answers to an append: the line is written, or an error is returned and the log is left with
-- what of the line was written.
pub data Append (Log : Type 0) : Type 0 where
  appended : Append Log
  refused : String → Log → Append Log
