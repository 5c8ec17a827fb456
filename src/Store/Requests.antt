-- ===== src/Store/Requests.antt =====
-- Sequences of calls of a `SessionStore` of v3-store/src/lib.rs, and two stores that answer them alike.
use todero_protocol_native.Base.{
  ◌≡◌, refl, sym, ap, ◌∙◌, ℕ, ◌≤◌, not, true, false, if◌then◌else◌, some, none, Option, ok, Result,
  ◌==◌, List, err, arith,
}
use todero_protocol_native.Store.{
  SessionRecord, VersionedRecord, StoreError, Entry, versioned, map_entry, same_version, next_entry,
}
use todero_protocol_native.Store.Shards.{live}
use todero_protocol_native.Store.Contract.{
  SessionStore, AgreeFrom, stored, erased, swapped, swap_result,
}

pub data Request : Type 0 where
  load_session delete_session : ℕ → Request
  swap_session : ℕ → Option ℕ → SessionRecord → ℕ → Request
  upsert_session : ℕ → SessionRecord → ℕ → Request
  scan_session : ℕ → Request

pub data Response : Type 0 where
  loaded : Result StoreError (Option VersionedRecord) → Response
  written : Result StoreError VersionedRecord → Response
  deleted : Result StoreError (Unit {0}) → Response
  -- Whether a scan has succeeded; which ids it returns depends on the order of the store's maps.
  scanned : Result StoreError (Unit {0}) → Response

-- A scan's result without the ids.
abbrev pub outcome : Result StoreError (List ℕ) → Result StoreError (Unit {0})
outcome (ok cids) = ok tt
outcome (err e) = err e

unfoldable pub serve : {S : Type 0} → SessionStore S → ℕ → Request → S → Response × S
serve store now (load_session cid) s = let r = store.load cid now s in (loaded r.0, r.1)
serve store now (delete_session cid) s = let r = store.delete cid s in (deleted r.0, r.1)
serve store now (swap_session cid expected rec ttl) s =
    let r = store.compare_and_swap cid expected rec ttl now s in (written r.0, r.1)
serve store now (upsert_session cid rec ttl) s =
    let r = store.upsert cid rec ttl now s in (written r.0, r.1)
serve store now (scan_session limit) s =
    let r = store.scan_expired now limit s in (scanned (outcome r.0), r.1)

stored-alike :
    (now cid : ℕ) (entry : Entry) (i : ℕ) (x y : Option Entry)
    → AgreeFrom now x y
    → AgreeFrom now (stored cid entry i x) (stored cid entry i y)
stored-alike now cid entry i x y h later le =
    elim (cid == i)
      as (λ b.
        live later (if b then some entry else x) ≡ live later (if b then some entry else y)) [
          | true ↦ refl
          | false ↦ h later le
        ]

erased-alike :
    (now cid i : ℕ) (x y : Option Entry)
    → AgreeFrom now x y
    → AgreeFrom now (erased cid i x) (erased cid i y)
erased-alike now cid i x y h later le =
    elim (cid == i)
      as (λ b. live later (if b then none else x) ≡ live later (if b then none else y)) [
        | true ↦ refl
        | false ↦ h later le
      ]

swapped-alike :
    (cid : ℕ) (expected : Option ℕ) (r : SessionRecord) (ttl now : ℕ) (current : Option Entry)
    (i : ℕ) (x y : Option Entry)
    → AgreeFrom now x y
    → AgreeFrom now
        (swapped cid expected r ttl now current i x)
        (swapped cid expected r ttl now current i y)
unfolding swapped
swapped-alike cid expected r ttl now current i x y h later le =
    let next = next_entry current r ttl now in
    elim (not (same_version (map_entry (λ e. e.version) current) expected))
      as (λ b.
        live later (if b then x else stored cid next i x)
        ≡ live later (if b then y else stored cid next i y)) [
          | true ↦ h later le
          | false ↦ stored-alike now cid next i x y h later le
        ]

module _ {S T : Type 0} (a : SessionStore S) (b : SessionStore T) where
  -- Two stores in sound states in which every load from now on finds the same.
  pub record AreAlike (now : ℕ) (s : S) (t : T) : Type 0 where
    pub sound_left : a.IsSound s
    pub sound_right : b.IsSound t
    pub alike : (i : ℕ) → AgreeFrom now (a.held i s) (b.held i t)

  pub AreAlike-later :
      (now later : ℕ) (s : S) (t : T) → now ≤ later → AreAlike now s t → AreAlike later s t
  AreAlike-later now later s t h both = record {
    sound_left = both.sound_left;
    sound_right = both.sound_right;
    alike = λ i at_ le. both.alike i at_ (omega (arith, h, le));
  }

  -- Two stores that are alike answer a request alike, and are alike after it.
  pub serve-alike :
      (now : ℕ) (request : Request) (s : S) (t : T)
      → AreAlike now s t
      → ((serve a now request s).0 ≡ (serve b now request t).0)
        × AreAlike now (serve a now request s).1 (serve b now request t).1
  unfolding serve
  serve-alike now (load_session cid) s t h =
      let same = h.alike cid now (omega arith) in
      (
        ap loaded (
            a.load_result cid now s h.sound_left
            ∙ ap (λ o. ok (map_entry versioned o)) same
            ∙ sym (b.load_result cid now t h.sound_right)),
        record {
          sound_left = a.load_sound cid now s h.sound_left;
          sound_right = b.load_sound cid now t h.sound_right;
          alike = λ i later le.
              a.load_held cid now s h.sound_left i later le
              ∙ h.alike i later le
              ∙ sym (b.load_held cid now t h.sound_right i later le);
        },
      )
  serve-alike now (delete_session cid) s t h = (
    ap deleted (a.delete_returns cid s h.sound_left ∙ sym (b.delete_returns cid t h.sound_right)),
    record {
      sound_left = a.delete_sound cid s h.sound_left;
      sound_right = b.delete_sound cid t h.sound_right;
      alike = λ i later le.
          ap (live later) (a.delete_held cid s h.sound_left i)
          ∙ erased-alike now cid i _ _ (h.alike i) later le
          ∙ sym (ap (live later) (b.delete_held cid t h.sound_right i));
    },
  )
  serve-alike now (swap_session cid expected r ttl) s t h =
      let same = h.alike cid now (omega arith) in
      let current = live now (b.held cid t) in
      (
        ap written (
            a.swap_returns cid expected r ttl now s h.sound_left
            ∙ ap (swap_result expected r ttl now) same
            ∙ sym (b.swap_returns cid expected r ttl now t h.sound_right)),
        record {
          sound_left = a.swap_sound cid expected r ttl now s h.sound_left;
          sound_right = b.swap_sound cid expected r ttl now t h.sound_right;
          alike = λ i later le.
              a.swap_held cid expected r ttl now s h.sound_left i later le
              ∙ ap (λ o. live later (swapped cid expected r ttl now o i (a.held i s))) same
              ∙ swapped-alike cid expected r ttl now current i _ _ (h.alike i) later le
              ∙ sym (b.swap_held cid expected r ttl now t h.sound_right i later le);
        },
      )
  serve-alike now (upsert_session cid r ttl) s t h =
      let same = h.alike cid now (omega arith) in
      let next = next_entry (live now (b.held cid t)) r ttl now in
      (
        ap written (
            a.upsert_returns cid r ttl now s h.sound_left
            ∙ ap (λ o. ok (versioned (next_entry o r ttl now))) same
            ∙ sym (b.upsert_returns cid r ttl now t h.sound_right)),
        record {
          sound_left = a.upsert_sound cid r ttl now s h.sound_left;
          sound_right = b.upsert_sound cid r ttl now t h.sound_right;
          alike = λ i later le.
              ap (live later) (a.upsert_held cid r ttl now s h.sound_left i)
              ∙ ap (λ o. live later (stored cid (next_entry o r ttl now) i (a.held i s))) same
              ∙ stored-alike now cid next i _ _ (h.alike i) later le
              ∙ sym (ap (live later) (b.upsert_held cid r ttl now t h.sound_right i));
        },
      )
  serve-alike now (scan_session limit) s t h =
      let (cids, found, few) = a.scan_returns now limit s h.sound_left in
      let (cids2, found2, few2) = b.scan_returns now limit t h.sound_right in
      (
        ap (λ r. scanned (outcome r)) found ∙ sym (ap (λ r. scanned (outcome r)) found2),
        record {
          sound_left = a.scan_sound now limit s h.sound_left;
          sound_right = b.scan_sound now limit t h.sound_right;
          alike = λ i later le.
              a.scan_held now limit s h.sound_left i later le
              ∙ h.alike i later le
              ∙ sym (b.scan_held now limit t h.sound_right i later le);
        },
      )
