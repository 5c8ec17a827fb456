-- ===== src/Store/Disk/Equivalence.antt =====
-- The disk store of v3-store/src/lib.rs against the in-memory store, from no files and no entries.
use todero_protocol_native.Base.{
  ◌≡◌, false, refl, sym, ap, ◌∙◌, ℕ, zero, suc, ◌<◌, List, [], some, none, ok, Result, ◌>>=◌,
  length, arith, ok-injective, ◌==◌, if-elim, err-ne-ok,
}
use todero_protocol_native.Base.BTreeMap.{get}
use todero_protocol_native.Store
use todero_protocol_native.Store.{
  InMemorySessionStore, Entry, Shard, StoreError, empty_shards, shard_at, shard_index,
}
use todero_protocol_native.Store.Versions.{entry_at}
use todero_protocol_native.Store.Expiry.{Iteration}
use todero_protocol_native.Store.Memory.{in_memory}
use todero_protocol_native.Store.Disk.{Serde, DiskSessionStore}
use todero_protocol_native.Store.Disk.Replay.{new, replay_lines, replay_log}
use todero_protocol_native.Store.Disk.Changes.{Agree}
use todero_protocol_native.Store.Disk.Laws.{SerdeLaws}
use todero_protocol_native.Store.Disk.Recovery.{IsDurable, accepted, new-IsDurable}
use todero_protocol_native.Store.Disk.Promises.{on_disk}
use todero_protocol_native.Store.Disk.Runs.{
  Event, no_files, run_disk, run_memory, InOrder, run_disk-run_memory,
}

length-empty_shards : (n : ℕ) → length (empty_shards n) ≡ n
unfolding empty_shards
length-empty_shards zero = refl
length-empty_shards (suc n) = ap suc (length-empty_shards n)

get-empty_shards : (i n cid : ℕ) → get cid (shard_at i (empty_shards n)) ≡ none
unfolding empty_shards shard_at get
get-empty_shards zero zero cid = refl
get-empty_shards (suc i) zero cid = refl
get-empty_shards zero (suc n) cid = refl
get-empty_shards (suc i) (suc n) cid = get-empty_shards i n cid

==_zero : (n : ℕ) → (n == 0) ≡ false → 0 < n
==_zero n h = ground arith

-- A new in-memory store has shards, and holds nothing.
new_lem :
    (n : ℕ) (m : InMemorySessionStore)
    → Store.new n ≡ ok m
    → (0 < length m.shards) × ((cid : ℕ) → entry_at cid m ≡ none)
unfolding Store.new entry_at
new_lem n m =
    let start : InMemorySessionStore = record { shards = empty_shards n } in
    if-elim {A = Result StoreError InMemorySessionStore}
      (λ r. r ≡ ok m → (0 < length m.shards) × ((cid : ℕ) → entry_at cid m ≡ none)) (n == 0)
      (λ _ e. absurd (err-ne-ok e))
      (λ positive e.
        let is : start ≡ m = ok-injective e in
        (
          omega (arith, ap (λ s. length s.shards) is, length-empty_shards n, ==_zero n positive),
          λ cid. ap (entry_at cid) (sym is) ∙ get-empty_shards (shard_index start cid) n cid,
        ))

module _ {serde : Serde} (laws : SerdeLaws serde) (order : Iteration) where
  -- Opening a directory without files succeeds, and nothing is held.
  opened :
      (start : DiskSessionStore serde) × (new serde accepted (no_files serde) ≡ ok start)
      × IsDurable start
      × ((cid : ℕ) → get cid start.entries ≡ none)
  unfolding new replay_log replay_lines get
  opened =
      let start : DiskSessionStore serde = record {
        entries = [];
        disk = record { log = some serde.empty_log; snapshot = none };
      } in
      (
        start,
        rw (laws.lines_written []),
        record {
          base = [];
          history = [];
          made = [];
          log_is = refl;
          snapshot_is = refl;
          replayed = λ m. refl;
          same = λ i. refl;
        },
        λ cid. refl,
      )

  -- For any sequence of requests one after the other, at times that do not go back, with compactions
  -- that fail at any of their writes or at none and restarts of the process anywhere between the
  -- calls, the disk store, opened in a directory without files, gives every request the answer that
  -- an in-memory store of any number of shards gives that is never stopped: the same results of load,
  -- compare_and_swap, upsert and delete, and of scan_expired that it succeeds (which ids it returns
  -- depends on the order of the maps). No call fails in the store, and opening the files that are left
  -- in the end gives the same entry for every connection id. The system accepts every append to the
  -- log and every opening, and no call starts before the one before it has returned: a write that
  -- overlaps with a compaction can be lost.
  pub run_disk-equals-memory :
      (n : ℕ) (m : InMemorySessionStore) (events : List Event)
      → Store.new n ≡ ok m
      → InOrder 0 events
      → (last : DiskSessionStore serde) × ((new serde accepted (no_files serde)
            >>= run_disk laws events)
          ≡ ok (run_memory order events m, last))
        × (back : DiskSessionStore serde) × (new serde accepted last.disk ≡ ok back)
        × Agree back.entries last.entries
  unfolding in_memory on_disk
  run_disk-equals-memory n m events made in_order =
      let (some_shard, nothing) = new_lem n m made in
      let (start, opens, durable, none_held) = opened in
      let (last, runs, d) = run_disk-run_memory laws order 0 events m start in_order (record {
        sound_left = some_shard;
        sound_right = durable;
        alike = λ i later le. rw (nothing i, none_held i);
      }) in
      let (back, reopens, agree, _) = new-IsDurable laws last d in
      (last, rw opens runs, back, reopens, agree)
