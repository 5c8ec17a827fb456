-- ===== src/Store/Disk/Runs.antt =====
-- Runs of the disk store of v3-store/src/lib.rs: calls, compactions stopped at any write, and restarts.
use todero_protocol_native.Base.{
  ◌≡◌, refl, sym, ap, ◌∙◌, ℕ, ◌≤◌, List, [], ◌∷◌, none, ok, Result, ◌>>=◌,
}
use todero_protocol_native.Base.BTreeMap.{get}
use todero_protocol_native.Store.{InMemorySessionStore, StoreError}
use todero_protocol_native.Store.Shards.{live}
use todero_protocol_native.Store.Requests.{
  Request, Response, serve, AreAlike, AreAlike-later, serve-alike,
}
use todero_protocol_native.Store.Memory.{in_memory}
use todero_protocol_native.Store.Disk.{Serde, Disk, DiskSessionStore, Answer}
use todero_protocol_native.Store.Disk.Files.{compact}
use todero_protocol_native.Store.Disk.Replay.{new}
use todero_protocol_native.Store.Disk.Changes.{Agree}
use todero_protocol_native.Store.Expiry.{Iteration}
use todero_protocol_native.Store.Disk.Laws.{SerdeLaws}
use todero_protocol_native.Store.Disk.Recovery.{IsDurable, accepted, new-IsDurable}
use todero_protocol_native.Store.Disk.Compaction.{compact-IsDurable}
use todero_protocol_native.Store.Disk.Promises.{on_disk}

pub data Event : Type 0 where
  -- A request at a time.
  asked : ℕ → Request → Event
  -- A compaction, by what the system answers to its three writes.
  compacted : Answer → Answer → Answer → Event
  -- The process ends, and opens the store again.
  restarted : Event

abbrev pub no_files : (serde : Serde) → Disk serde
no_files serde = record { log = none; snapshot = none }

module _ {serde : Serde} (laws : SerdeLaws serde) where
  -- The answers of the disk store to the requests among the events, and the store after them.
  unfoldable pub run_disk :
      List Event
      → DiskSessionStore serde
      → Result StoreError (List Response × DiskSessionStore serde)
  run_disk [] self = ok ([], self)
  run_disk (asked now request ∷ events) self =
      let r = serve (on_disk laws) now request self in
      run_disk events r.1 >>= (λ rest. ok (r.0 ∷ rest.0, rest.1))
  run_disk (compacted write_tmp rename truncate ∷ events) self =
      run_disk events (compact serde write_tmp rename truncate self).1
  run_disk (restarted ∷ events) self =
      new serde accepted self.disk >>= (λ back. run_disk events back)

-- The answers of the in-memory store, which is neither compacted nor stopped.
module _ (order : Iteration) where
  unfoldable pub run_memory : List Event → InMemorySessionStore → List Response
  run_memory [] self = []
  run_memory (asked now request ∷ events) self =
      let r = serve (in_memory order) now request self in r.0 ∷ run_memory events r.1
  run_memory (compacted write_tmp rename truncate ∷ events) self = run_memory events self
  run_memory (restarted ∷ events) self = run_memory events self

-- The times of the requests do not go back, from `now` on.
abbrev pub InOrder : ℕ → List Event → Type 0
InOrder now [] = Unit {0}
InOrder now (asked at_ request ∷ events) = (now ≤ at_) × InOrder at_ events
InOrder now (compacted write_tmp rename truncate ∷ events) = InOrder now events
InOrder now (restarted ∷ events) = InOrder now events

module _ {serde : Serde} (laws : SerdeLaws serde) (order : Iteration) where
  -- A store whose entries are those of another is as like to a third.
  same_entries :
      (now : ℕ) (m : InMemorySessionStore) (s t : DiskSessionStore serde)
      → AreAlike (in_memory order) (on_disk laws) now m s
      → IsDurable t
      → Agree t.entries s.entries
      → AreAlike (in_memory order) (on_disk laws) now m t
  unfolding on_disk
  same_entries now m s t h d agree = record {
    sound_left = h.sound_left;
    sound_right = d;
    alike = λ i later le. h.alike i later le ∙ sym (ap (live later) (agree i));
  }

  pub run_disk-run_memory :
      (now : ℕ) (events : List Event) (m : InMemorySessionStore) (self : DiskSessionStore serde)
      → InOrder now events
      → AreAlike (in_memory order) (on_disk laws) now m self
      → (last : DiskSessionStore serde) × (run_disk laws events self
          ≡ ok (run_memory order events m, last))
        × IsDurable last
  unfolding run_disk run_memory on_disk
  run_disk-run_memory now [] m self in_order h = (self, refl, h.sound_right)
  run_disk-run_memory now (asked at_ request ∷ events) m self (le, in_order) h =
      let (same, next) =
        serve-alike (in_memory order) (on_disk laws) at_ request m self
          (AreAlike-later (in_memory order) (on_disk laws) now at_ m self le h) in
      let (last, runs, d) = run_disk-run_memory at_ events _ _ in_order next in
      (last, rw (runs, same), d)
  run_disk-run_memory now (compacted write_tmp rename truncate ∷ events) m self in_order h =
      let (d, kept) = compact-IsDurable laws write_tmp rename truncate self h.sound_right in
      run_disk-run_memory now events m _ in_order
        (same_entries now m self _ h d (λ i. ap (get i) kept))
  run_disk-run_memory now (restarted ∷ events) m self in_order h =
      let (back, opened, agree, d) = new-IsDurable laws self h.sound_right in
      let (last, runs, dl) =
        run_disk-run_memory now events m back in_order (same_entries now m self back h d agree) in
      (last, rw opened runs, dl)
