-- ===== src/Examples/Disks.antt =====
-- The theorems of the disk session store, at concrete inputs: texts that are the values themselves.
use Prim.Native.String.{String}
use todero_protocol_native.Base.{
  ◌≡◌, refl, sym, ap, ◌∙◌, ℕ, suc, true, false, List, [], ◌∷◌, ◌++◌, map, some, none, ok, err,
  Result, append_assoc, append-nil, arith, ◌>>=◌,
}
use todero_protocol_native.Base.BTreeMap.{get}
use todero_protocol_native.Store
use todero_protocol_native.Store.{
  InMemorySessionStore, SessionRecord, Entry, Shard, io, corrupt_log_entry, versioned, next_entry,
}
use todero_protocol_native.Examples.Maps.{held_for, held_for-All, get-held_for, order}
use todero_protocol_native.Store.Requests.{load_session, delete_session, swap_session, scan_session}
use todero_protocol_native.Store.Disk.{
  Serde, StoredSession, DiskOp, DiskLogEntry, DiskSnapshot, DiskSessionStore, delete_op, appended,
  refused,
}
use todero_protocol_native.Store.Disk.Laws.{SerdeLaws, written_from}
use todero_protocol_native.Store.Disk.Runs.{
  Event, asked, compacted, restarted, no_files, run_disk, run_memory,
}
use todero_protocol_native.Store.Disk.Equivalence.{run_disk-equals-memory}
use todero_protocol_native.Store.Disk.Replay.{new, replay_lines}
use todero_protocol_native.Store.Disk.Changes.{Agree}
use todero_protocol_native.Store.Disk.Recovery.{accepted, IsDurable}
use todero_protocol_native.Store.Disk.Files.{
  compare_and_swap, load, snapshot_entries, snapshot_payload, write_entry, write_snapshot,
}
use todero_protocol_native.Store.Disk.Races.{compact-loses_write}
use todero_protocol_native.Store.Disk.Failures.{new-torn_line, load-compare_and_swap-refused}

-- A line is an entry, or what is left of a cut one.
data Line : Type 0 where
  whole : DiskLogEntry StoredSession → Line
  cut blank : Line

abbrev from_line : Line → Result String (DiskLogEntry StoredSession)
from_line (whole e) = ok e
from_line cut = err "EOF while parsing"
from_line blank = err "EOF while parsing"

abbrev op_sum : DiskOp StoredSession → ℕ
op_sum (DiskOp.upsert_op cid version expires_at_ms bytes) = suc cid
op_sum (delete_op cid) = 0

abbrev values : Serde
values = record {
  Data = StoredSession;
  OpBytes = DiskOp StoredSession;
  Line = Line;
  Image = DiskSnapshot StoredSession;
  Log = List Line;
  session_to_vec = ok;
  session_from_slice = ok;
  schema_of = λ s. ok (some s.schema_version);
  legacy_from_value = λ s. err "missing field";
  op_to_vec = ok;
  calc_checksum = op_sum;
  entry_to_vec = λ e. ok (whole e);
  entry_from_str = from_line;
  is_blank = λ line. elim line [ blank ↦ true | other ↦ false ];
  snapshot_to_vec = ok;
  snapshot_from_slice = ok;
  is_empty_image = λ image. false;
  empty_log = [];
  append_line = λ line log. log ++ (line ∷ []);
  lines = λ log. map ok log;
  iter = λ m. held_for m m;
}

written_from-values : (log ls : List Line) → written_from values log ls ≡ log ++ ls
written_from-values log [] = sym (append-nil log)
written_from-values log (l ∷ ls) =
    written_from-values (log ++ (l ∷ [])) ls ∙ append_assoc log (l ∷ []) ls

abbrev value_laws : SerdeLaws values
value_laws = record {
  session_text = λ s. (s, refl, refl, refl);
  op_text = λ op. (op, refl);
  line_text = λ e. (whole e, refl, refl, refl);
  image_text = λ s. (s, refl, refl, refl);
  lines_written = λ ls. ap (map ok) (written_from-values [] ls);
  get-iter = get-held_for;
  iter-get = λ m. held_for-All m m;
}

abbrev session : SessionRecord
session = record {
  cid = 7;
  peer_id = "peer";
  negotiated_msr_interval_ms = 15_000;
  disconnect_window_ms = 180_000;
  last_ordered_rx = 4;
  last_ordered_tx = 2;
}

abbrev two_shards : InMemorySessionStore
two_shards = record { shards = [] ∷ [] ∷ [] }

abbrev events : List Event
events =
    asked 10 (swap_session 7 none session 100)
    ∷ compacted (ok tt) (ok tt) (err "disk full")
    ∷ restarted
    ∷ asked 20 (swap_session 7 none session 100)
    ∷ asked 20 (swap_session 7 (some 1) session 100)
    ∷ asked 200 (scan_session 5)
    ∷ asked 200 (load_session 7)
    ∷ restarted
    ∷ asked 201 (delete_session 7)
    ∷ []

run_disk-equals-memory_example :
    (last : DiskSessionStore values) × ((new values accepted (no_files values)
        >>= run_disk value_laws events)
      ≡ ok (run_memory order events two_shards, last))
    × (back : DiskSessionStore values) × (new values accepted last.disk ≡ ok back)
    × Agree back.entries last.entries
unfolding Store.new Store.empty_shards
run_disk-equals-memory_example =
    run_disk-equals-memory value_laws order 2 two_shards events refl
      (omega arith, (omega arith, (omega arith, (omega arith, (omega arith, (omega arith, tt))))))

abbrev opened_store : DiskSessionStore values
opened_store = record { entries = []; disk = record { log = some []; snapshot = none } }

opened_store-IsDurable : IsDurable opened_store
unfolding replay_lines
opened_store-IsDurable = record {
  base = [];
  history = [];
  made = [];
  log_is = refl;
  snapshot_is = refl;
  replayed = λ m. refl;
  same = λ i. refl;
}

new-torn_line_example :
    new values accepted (record { log = some (cut ∷ []); snapshot = none }) ≡ err corrupt_log_entry
unfolding opened_store-IsDurable
new-torn_line_example =
    new-torn_line value_laws opened_store opened_store-IsDurable cut (cut ∷ []) "EOF while parsing"
      refl refl refl

load-compare_and_swap-refused_example :
    ((compare_and_swap values 7 none session 100 10 (refused "disk full" []) opened_store).0
      ≡ err (io "disk full"))
    × ((load values 7 50 appended
          (compare_and_swap values 7 none session 100 10 (refused "disk full" []) opened_store).1).0
        ≡ ok (some (record { version = 1; record_ = session; expires_at_ms = 110 })))
unfolding get next_entry
load-compare_and_swap-refused_example =
    load-compare_and_swap-refused value_laws 7 none session 100 10 50 "disk full" [] appended
      opened_store refl (omega arith)

abbrev upserted : Entry
upserted = record { version = 1; record_ = session; expires_at_ms = 150 }

abbrev empty_image : DiskSnapshot StoredSession
empty_image = record { schema_version = 1; entries = [] }

compact-loses_write_example :
    ((write_entry values 7 upserted appended opened_store).0 ≡ ok (versioned upserted))
    × ((write_snapshot values
          (ok tt)
          (ok tt)
          (ok tt)
          empty_image
          (write_entry values 7 upserted appended opened_store).1).0
        ≡ ok tt)
    × (get 7
          (write_snapshot values
            (ok tt)
            (ok tt)
            (ok tt)
            empty_image
            (write_entry values 7 upserted appended opened_store).1).1.entries
        ≡ some upserted)
    × (back : DiskSessionStore values) × (new values accepted
          (write_snapshot values
            (ok tt)
            (ok tt)
            (ok tt)
            empty_image
            (write_entry values 7 upserted appended opened_store).1).1.disk
        ≡ ok back)
    × Agree back.entries []
unfolding snapshot_payload snapshot_entries
compact-loses_write_example =
    compact-loses_write value_laws 7 upserted empty_image opened_store opened_store-IsDurable refl
