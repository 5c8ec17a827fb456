-- ===== src/Store/Disk/Races.antt =====
-- Two calls of the disk store of v3-store/src/lib.rs that overlap: each writes to the files after it has
-- released the lock on the entries.
use todero_protocol_native.Base.{
  ◌≡◌, refl, sym, Result, ◌>>◌, ap, ◌∙◌, ℕ, some, ok, ==_refl, ok-injective,
}
use todero_protocol_native.Base.BTreeMap.{get, insert, get-insert}
use todero_protocol_native.Store.{Entry, Shard, StoreError, VersionedRecord, versioned}
use todero_protocol_native.Store.Disk.{
  Serde, DiskSessionStore, appended, upsert_op, encode_session_record,
  decode_session_record_migrating,
}
use todero_protocol_native.Store.Disk.Files.{
  snapshot_payload, write_entry, write_snapshot, put_entry, append_entry,
}
use todero_protocol_native.Store.Disk.Replay.{new, apply_op}
use todero_protocol_native.Store.Disk.Changes.{Agree, put, change}
use todero_protocol_native.Store.Disk.Laws.{SerdeLaws, decode-encode_session_record}
use todero_protocol_native.Store.Disk.Recovery.{IsDurable, accepted, new-IsDurable}
use todero_protocol_native.Store.Disk.Durability.{write_entry-IsDurable, logged}
use todero_protocol_native.Store.Disk.Compaction.{load_snapshot-payload, truncated-IsDurable}

module _ {serde : Serde} (laws : SerdeLaws serde) where
  -- A swap or an upsert that writes `entry` for `cid` after a compaction has read the entries, and before
  -- it writes its files, is lost from them: it succeeds, and the entry is in memory when the
  -- compaction has succeeded too, but the files open as a store with the entries from before the
  -- write. The system accepts all writes, and the files held what was in memory before.
  pub compact-loses_write :
      (cid : ℕ) (entry : Entry) (payload : serde.Image) (self : DiskSessionStore serde)
      → IsDurable self
      → snapshot_payload serde self.entries ≡ ok payload
      → ((write_entry serde cid entry appended self).0 ≡ ok (versioned entry))
        × ((write_snapshot serde
              (ok tt)
              (ok tt)
              (ok tt)
              payload
              (write_entry serde cid entry appended self).1).0
            ≡ ok tt)
        × (get cid
              (write_snapshot serde
                (ok tt)
                (ok tt)
                (ok tt)
                payload
                (write_entry serde cid entry appended self).1).1.entries
            ≡ some entry)
        × (back : DiskSessionStore serde) × (new serde accepted
              (write_snapshot serde
                (ok tt)
                (ok tt)
                (ok tt)
                payload
                (write_entry serde cid entry appended self).1).1.disk
            ≡ ok back)
        × Agree back.entries self.entries
  compact-loses_write cid entry payload self d taken =
      let (kept, written, held) = write_entry-IsDurable laws self cid entry d in
      let (image, base, to, from, agree) = load_snapshot-payload laws self.entries in
      let same = ok-injective (sym to ∙ taken) in
      let emptied = truncated-IsDurable laws self image base from agree in
      let (back, opens, backs, _) = new-IsDurable laws _ emptied in
      (
        written,
        refl,
        ap (get cid) held ∙ get-insert cid cid entry self.entries ∙ rw (==_refl cid),
        back,
        ap (λ x. new serde accepted (record { log = some serde.empty_log; snapshot = some x }))
              (sym same)
            ∙ opens,
        backs,
      )

  applied-put :
      (cid : ℕ) (entry : Entry) (encoded : serde.Data)
      → encode_session_record serde entry.record_ ≡ ok encoded
      → (m : Shard)
      → apply_op serde (upsert_op cid entry.version entry.expires_at_ms encoded) m
        ≡ ok (change (put cid entry) m)
  unfolding apply_op
  applied-put cid entry encoded e m =
      let (bytes, to, from, migrating) = decode-encode_session_record laws entry.record_ in
      let same : bytes ≡ encoded = ok-injective (sym to ∙ e) in
      let back : decode_session_record_migrating serde encoded ≡ ok entry.record_ =
        ap (decode_session_record_migrating serde) (sym same) ∙ migrating in
      rw back

  -- Two writes for one id whose entries are put in memory in one order and whose operations are
  -- appended in the other: both succeed, memory has the entry `b` that was put last, and the files
  -- open as a store with the entry `a`. The system accepts the appends, and the files held what was
  -- in memory before.
  module _ (cid : ℕ) (a b : Entry) (encoded_a encoded_b : serde.Data)
      (self : DiskSessionStore serde) where
    abbrev first : Result StoreError VersionedRecord × DiskSessionStore serde
    first =
        append_entry serde cid b encoded_b appended
          (put_entry serde cid b (put_entry serde cid a self))

    abbrev second : Result StoreError VersionedRecord × DiskSessionStore serde
    second = append_entry serde cid a encoded_a appended first.1

    -- Two writes for one id whose entries are put in memory in one order and whose operations are
    -- appended in the other: both succeed, memory has the entry `b` that was put last, and the files
    -- open as a store with the entry `a`. The system accepts the appends, and the files held what
    -- was in memory before.
    appends-swapped :
        IsDurable self
        → encode_session_record serde a.record_ ≡ ok encoded_a
        → encode_session_record serde b.record_ ≡ ok encoded_b
        → (first.0 ≡ ok (versioned b))
          × (second.0 ≡ ok (versioned a))
          × (get cid second.1.entries ≡ some b)
          × (back : DiskSessionStore serde) × (new serde accepted second.1.disk ≡ ok back)
          × (get cid back.entries ≡ some a)
    appends-swapped d ea eb =
        let op_a = upsert_op cid a.version a.expires_at_ms encoded_a in
        let op_b = upsert_op cid b.version b.expires_at_ms encoded_b in
        let (kept_b, fine_b) =
          logged laws self op_b (put cid b) d (applied-put cid b encoded_b eb) in
        let (kept_a, fine_a) =
          logged laws _ op_a (put cid a) kept_b (applied-put cid a encoded_a ea) in
        let (back, opens, agree, _) = new-IsDurable laws _ kept_a in
        let one = insert cid b self.entries in
        (
          ap (λ r. r >> ok (versioned b)) fine_b,
          ap (λ r. r >> ok (versioned a)) fine_a,
          get-insert cid cid b (insert cid a self.entries) ∙ rw (==_refl cid),
          back,
          opens,
          agree cid ∙ get-insert cid cid a one ∙ rw (==_refl cid),
        )
