-- ===== src/Store/Disk/Promises.antt =====
-- The disk store of v3-store/src/lib.rs keeps the promises of the trait `SessionStore` while the system
-- accepts its writes.
use todero_protocol_native.Base.{
  ◌≡◌, refl, sym, ap, ◌∙◌, ℕ, ◌≤◌, true, false, not, some, none, Option, ok, err, Result, inl, inr,
  if◌then◌else◌, ◌==◌, ==_iff, Bool-cases, arith, if-elim, ◌>>◌, ltb,
}
use todero_protocol_native.Base.BTreeMap.{get, remove, get-insert, get-remove}
use todero_protocol_native.Store.{
  Entry, SessionRecord, VersionedRecord, StoreError, map_entry, versioned, same_version, next_entry,
  cas_conflict,
}
use todero_protocol_native.Store.Shards.{live}
use todero_protocol_native.Store.Contract.{SessionStore, AgreeFrom, stored, swap_result, swapped}
use todero_protocol_native.Store.Disk.{Serde, DiskSessionStore, appended, delete_op}
use todero_protocol_native.Store.Disk.Files.{
  load, load_current, write_entry, compare_and_swap, upsert, delete, append_op, scan_expired,
}
use todero_protocol_native.Store.Disk.Laws.{SerdeLaws}
use todero_protocol_native.Store.Disk.Recovery.{IsDurable}
use todero_protocol_native.Store.Disk.Durability.{
  logged-drop, write_entry-IsDurable, load-IsDurable, compare_and_swap-IsDurable, upsert-IsDurable,
  delete-IsDurable, scan_expired-IsDurable, scan_expired-ok, scan_expired-AgreeFrom,
}

module _ {serde : Serde} (laws : SerdeLaws serde) where
  abbrev pub held : ℕ → DiskSessionStore serde → Option Entry
  held cid self = get cid self.entries

  pub load_current-result :
      (cid now : ℕ) (self : DiskSessionStore serde) (o : Option Entry)
      → IsDurable self
      → (load_current serde cid now appended self o).0 ≡ ok (map_entry versioned (live now o))
  unfolding load_current
  load_current-result cid now self none d = refl
  load_current-result cid now self (some e) d =
      let fine = (logged-drop laws self cid d).1 in
      elim (ltb now e.expires_at_ms)
        as (λ b.
          (if◌then◌else◌ {A = Result StoreError (Option VersionedRecord) × DiskSessionStore serde} b
            (ok (some (versioned e)), self)
            (
              (append_op serde (delete_op cid) appended self.disk).0 >> ok none,
              record {
                entries = remove cid self.entries;
                disk = (append_op serde (delete_op cid) appended self.disk).1;
              },
            )).0
          ≡ ok (map_entry versioned (if b then some e else none))) [
            | true ↦ refl
            | false ↦ ap (λ r. r >> ok none) fine
          ]

  -- An entry that has expired is found by no later load, whether it is removed or not.
  expired_later :
      (now later : ℕ) (e : Entry)
      → ltb now e.expires_at_ms ≡ false
      → now ≤ later
      → live later (some e) ≡ none
  expired_later now later e h le = ground arith

  removed_held :
      (cid now i : ℕ) (self : DiskSessionStore serde) (e : Entry)
      → get cid self.entries ≡ some e
      → ltb now e.expires_at_ms ≡ false
      → AgreeFrom now (get i (remove cid self.entries)) (get i self.entries)
  removed_held cid now i self e at_ dead later le =
      let gone : (cid == i) ≡ true → get i (remove cid self.entries) ≡ none =
        λ q. get-remove i cid self.entries ∙ rw q in
      elim (Bool-cases (cid == i)) [
        | inl q ↦
            ap (live later) (gone q)
            ∙ sym (expired_later now later e dead le)
            ∙ ap (live later) (sym at_ ∙ ap (λ k. get k self.entries) ((==_iff cid i).0 q))
        | inr q ↦ ap (live later) (get-remove i cid self.entries ∙ rw q)
      ]

  pub load_current-held :
      (cid now : ℕ) (self : DiskSessionStore serde) (o : Option Entry)
      → get cid self.entries ≡ o
      → (i : ℕ)
      → AgreeFrom now (held i (load_current serde cid now appended self o).1) (held i self)
  unfolding load_current
  load_current-held cid now self none at_ i later le = refl
  load_current-held cid now self (some e) at_ i later le =
      if-elim {A = Result StoreError (Option VersionedRecord) × DiskSessionStore serde}
        (λ p. live later (held i p.1) ≡ live later (held i self)) (ltb now e.expires_at_ms)
        (λ _. refl) (λ dead. removed_held cid now i self e at_ dead later le)

  pub written_held :
      (cid : ℕ) (entry : Entry) (self : DiskSessionStore serde)
      → IsDurable self
      → (i : ℕ)
      → held i (write_entry serde cid entry appended self).1 ≡ stored cid entry i (held i self)
  written_held cid entry self d i =
      ap (get i) (write_entry-IsDurable laws self cid entry d).2
      ∙ get-insert i cid entry self.entries

  module _ (cid : ℕ) (expected : Option ℕ) (r : SessionRecord) (ttl now : ℕ) where
    pub swap_returned :
        (self : DiskSessionStore serde)
        → IsDurable self
        → (compare_and_swap serde cid expected r ttl now appended self).0
          ≡ swap_result expected r ttl now (live now (held cid self))
    unfolding compare_and_swap swap_result
    swap_returned self d =
        let current = live now (get cid self.entries) in
        let entry = next_entry current r ttl now in
        let version = map_entry (λ e. e.version) current in
        elim (not (same_version version expected))
          as (λ b.
            (if◌then◌else◌ {A = Result StoreError VersionedRecord × DiskSessionStore serde} b
              (err (cas_conflict expected version), self)
              (write_entry serde cid entry appended self)).0
            ≡ (if b then err (cas_conflict expected version) else ok (versioned entry))) [
              | true ↦ refl
              | false ↦ (write_entry-IsDurable laws self cid entry d).1
            ]

    pub swap_kept :
        (self : DiskSessionStore serde)
        → IsDurable self
        → (i : ℕ)
        → AgreeFrom now
            (held i (compare_and_swap serde cid expected r ttl now appended self).1)
            (swapped cid expected r ttl now (live now (held cid self)) i (held i self))
    unfolding compare_and_swap swapped
    swap_kept self d i later le =
        let current = live now (get cid self.entries) in
        let entry = next_entry current r ttl now in
        let version = map_entry (λ e. e.version) current in
        elim (not (same_version version expected))
          as (λ b.
            live later (
              held i
                (if◌then◌else◌ {A = Result StoreError VersionedRecord × DiskSessionStore serde} b
                  (err (cas_conflict expected version), self)
                  (write_entry serde cid entry appended self)).1)
            ≡ live later (if b then held i self else stored cid entry i (held i self))) [
              | true ↦ refl
              | false ↦ ap (live later) (written_held cid entry self d i)
            ]

  -- Every operation of the disk store does what the trait promises.
  unfoldable pub on_disk : SessionStore (DiskSessionStore serde)
  unfolding load upsert delete
  on_disk = record {
    load = λ cid now. load serde cid now appended;
    compare_and_swap =
        λ cid expected r ttl now. compare_and_swap serde cid expected r ttl now appended;
    upsert = λ cid r ttl now. upsert serde cid r ttl now appended;
    delete = λ cid. delete serde cid appended;
    scan_expired = λ now limit. scan_expired serde now limit (λ _. appended);
    IsSound = IsDurable;
    held = held;
    load_sound = λ cid now self d. load-IsDurable laws self cid now d;
    load_result = λ cid now self d. load_current-result cid now self (get cid self.entries) d;
    load_held = λ cid now self d. load_current-held cid now self (get cid self.entries) refl;
    swap_sound = λ cid expected r ttl now self d.
        compare_and_swap-IsDurable laws self cid expected r ttl now d;
    swap_returns = swap_returned;
    swap_held = swap_kept;
    upsert_sound = λ cid r ttl now self d. upsert-IsDurable laws self cid r ttl now d;
    upsert_returns = λ cid r ttl now self d. (write_entry-IsDurable laws self cid _ d).1;
    upsert_held = λ cid r ttl now self d i. written_held cid _ self d i;
    delete_sound = λ cid self d. delete-IsDurable laws self cid d;
    delete_returns = λ cid self d. (logged-drop laws self cid d).1;
    delete_held = λ cid self d i. get-remove i cid self.entries;
    scan_sound = λ now limit self d. scan_expired-IsDurable laws self now limit d;
    scan_returns = λ now limit self d. scan_expired-ok laws self now limit d;
    scan_held = λ now limit self d. scan_expired-AgreeFrom laws self now limit d;
  }
