-- ===== src/Store/Disk/Recovery.antt =====
-- The disk store of v3-store/src/lib.rs and its files: what is in memory is what the files give.
use todero_protocol_native.Base.{
  ◌≡◌, refl, sym, ap, ◌∙◌, List, [], ◌∷◌, ◌++◌, map, some, ok, inl, inr, Result-cases, ◌>>=◌,
}
use todero_protocol_native.Base.BTreeMap.{get}
use todero_protocol_native.Store.{Shard}
use todero_protocol_native.Store.Disk.{Serde, DiskSessionStore, appended}
use todero_protocol_native.Store.Disk.Files.{write_line}
use todero_protocol_native.Store.Disk.Replay.{
  replay_line, replay_lines, replay_log, Opening, snapshot_or_none, new,
}
use todero_protocol_native.Store.Disk.Changes.{
  Change, change, changes, Agree, changes-append, change-Agree,
}
use todero_protocol_native.Store.Disk.Laws.{SerdeLaws, written_from, written_from-append}

abbrev pub accepted : Opening
accepted = record {
  create_dir = ok tt;
  create_log = ok tt;
  read_snapshot = ok tt;
  open_log = ok tt;
}

-- The files hold a snapshot and lines whose changes to it give, for every id, the entry in memory.
pub record IsDurable {serde : Serde} (self : DiskSessionStore serde) : Type 0 where
  pub base : Shard
  pub history : List serde.Line
  pub made : List Change
  pub log_is : self.disk.log ≡ some (written_from serde serde.empty_log history)
  pub snapshot_is : snapshot_or_none serde (ok tt) self.disk.snapshot ≡ ok base
  pub replayed : (m : Shard) → replay_lines serde (map ok history) m ≡ ok (changes made m)
  pub same : Agree (changes made base) self.entries

replay_lines-append :
    (serde : Serde) (ls : List serde.Line) (line : serde.Line) (cs : List Change) (c : Change)
    → ((m : Shard) → replay_lines serde (map ok ls) m ≡ ok (changes cs m))
    → ((m : Shard) → replay_line serde line m ≡ ok (change c m))
    → (m : Shard)
    → (replay_lines serde (map ok ls) m >>= (λ n. replay_lines serde (map ok (line ∷ [])) n))
      ≡ ok (changes (cs ++ (c ∷ [])) m)
unfolding replay_lines
replay_lines-append serde ls line cs c before now m =
    rw (before m, now (changes cs m), changes-append cs c m)

pub replay_lines-split :
    (serde : Serde) (ls ks : List serde.Line) (m : Shard)
    → replay_lines serde (map ok (ls ++ ks)) m
      ≡ (replay_lines serde (map ok ls) m >>= (λ n. replay_lines serde (map ok ks) n))
unfolding replay_lines
replay_lines-split serde [] ks m = refl
replay_lines-split serde (l ∷ ls) ks m = elim (Result-cases (replay_line serde l m)) [
  | inl (n, e) ↦ rw e (replay_lines-split serde ls ks n)
  | inr (reason, e) ↦ rw e
]

module _ {serde : Serde} (laws : SerdeLaws serde) where
  -- The store that `new` makes of the files of a durable one holds the same entries.
  pub new-IsDurable :
      (self : DiskSessionStore serde)
      → IsDurable self
      → (back : DiskSessionStore serde) × (new serde accepted self.disk ≡ ok back)
        × Agree back.entries self.entries
        × IsDurable back
  unfolding new replay_log
  new-IsDurable self d =
      let image = changes d.made d.base in
      let back : DiskSessionStore serde = record { entries = image; disk = self.disk } in
      (
        back,
        rw (d.log_is, d.snapshot_is, laws.lines_written d.history, d.replayed d.base),
        d.same,
        record {
          base = d.base;
          history = d.history;
          made = d.made;
          log_is = d.log_is;
          snapshot_is = d.snapshot_is;
          replayed = d.replayed;
          same = λ i. refl;
        },
      )

  -- One more line, whose change is made in memory too.
  pub IsDurable-append :
      (self : DiskSessionStore serde) (line : serde.Line) (c : Change)
      → IsDurable self
      → ((m : Shard) → replay_line serde line m ≡ ok (change c m))
      → IsDurable {serde = serde} (record {
        entries = change c self.entries;
        disk = (write_line serde appended line self.disk).1;
      })
  unfolding write_line
  IsDurable-append self line c d is = record {
    base = d.base;
    history = d.history ++ (line ∷ []);
    made = d.made ++ (c ∷ []);
    log_is = rw d.log_is (ap some (sym (written_from-append serde serde.empty_log d.history line)));
    snapshot_is = d.snapshot_is;
    replayed = λ m.
        replay_lines-split serde d.history (line ∷ []) m
        ∙ replay_lines-append serde d.history line d.made c d.replayed is m;
    same = λ i.
        ap (get i) (changes-append d.made c d.base)
        ∙ change-Agree c (changes d.made d.base) self.entries d.same i;
  }
