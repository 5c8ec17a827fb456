-- ===== src/Store/Disk/Failures.antt =====
-- What the disk store of v3-store/src/lib.rs does when a write to its log fails or is cut off.
use Prim.Native.String.{String}
use todero_protocol_native.Base.{
  ◌≡◌, refl, ◌∙◌, ℕ, ◌<◌, true, false, [], ◌∷◌, ◌++◌, map, some, Option, ok, err, lt→ltb, ==_refl,
}
use todero_protocol_native.Base.BTreeMap.{get, insert, get-insert}
use todero_protocol_native.Store.{
  SessionRecord, io, corrupt_log_entry, Entry, versioned, map_entry, same_version, next_entry,
}
use todero_protocol_native.Store.Shards.{live}
use todero_protocol_native.Store.Disk.{Serde, DiskSessionStore, Append, refused, upsert_op}
use todero_protocol_native.Store.Disk.Files.{
  append_op, write_line, write_entry, compare_and_swap, load, load_current,
}
use todero_protocol_native.Store.Disk.Replay.{new, replay_line, replay_lines, replay_log}
use todero_protocol_native.Store.Disk.Laws.{
  SerdeLaws, decode-encode_session_record, replay_line-log_line,
}
use todero_protocol_native.Store.Disk.Recovery.{IsDurable, accepted, replay_lines-split}

module _ {serde : Serde} (laws : SerdeLaws serde) where
  -- A log that ends in a line that is not the text of an entry, as an append that is cut off leaves
  -- it, makes `new` fail for the whole store, whatever the lines and the snapshot before it hold.
  pub new-torn_line :
      (self : DiskSessionStore serde) (d : IsDurable self) (torn : serde.Line) (log : serde.Log)
      (reason : String)
      → serde.lines log ≡ map ok (d.history ++ (torn ∷ []))
      → serde.is_blank torn ≡ false
      → serde.entry_from_str torn ≡ err reason
      → new serde accepted (record self.disk { log = some log }) ≡ err corrupt_log_entry
  unfolding new replay_log replay_lines replay_line
  new-torn_line self d torn log reason ends full bad = rw (
    d.snapshot_is,
    ends,
    replay_lines-split serde d.history (torn ∷ []) d.base,
    d.replayed d.base,
    full,
    bad,
  )

  write_entry-refused :
      (cid : ℕ) (entry : Entry) (reason : String) (log : serde.Log) (self : DiskSessionStore serde)
      → write_entry serde cid entry (refused reason log) self ≡ (
        err (io reason),
        record {
          entries = insert cid entry self.entries;
          disk = record self.disk { log = some log };
        },
      )
  unfolding write_entry append_op write_line
  write_entry-refused cid entry reason log self =
      let (bytes, to, from, migrating) = decode-encode_session_record laws entry.record_ in
      let (line, logs, replays) =
        replay_line-log_line laws (upsert_op cid entry.version entry.expires_at_ms bytes) in
      rw (to, write_entry) (rw (logs, append_op) refl)

  -- A swap whose append is refused returns the error, and has changed the entry in memory: a load
  -- before the new expiry gives the record that the swap has reported as not stored.
  pub load-compare_and_swap-refused :
      (cid : ℕ) (expected : Option ℕ) (r : SessionRecord) (ttl now later : ℕ) (reason : String)
      (log : serde.Log) (answer : Append serde.Log) (self : DiskSessionStore serde)
      → same_version (map_entry (λ e. e.version) (live now (get cid self.entries))) expected ≡ true
      → later < (next_entry (live now (get cid self.entries)) r ttl now).expires_at_ms
      → ((compare_and_swap serde cid expected r ttl now (refused reason log) self).0
          ≡ err (io reason))
        × ((load serde cid later answer
              (compare_and_swap serde cid expected r ttl now (refused reason log) self).1).0
            ≡ ok (some (versioned (next_entry (live now (get cid self.entries)) r ttl now))))
  unfolding compare_and_swap load load_current
  load-compare_and_swap-refused cid expected r ttl now later reason log answer self match before =
      let entry = next_entry (live now (get cid self.entries)) r ttl now in
      let held : get cid (insert cid entry self.entries) ≡ some entry =
        get-insert cid cid entry self.entries ∙ rw (==_refl cid) in
      rw
        (
          match,
          write_entry-refused cid entry reason log self,
          held,
          lt→ltb later entry.expires_at_ms before,
        )
        (refl, refl)
