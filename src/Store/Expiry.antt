-- ===== src/Store/Expiry.antt =====
-- What `scan_expired` of v3-store/src/lib.rs removes: only entries that no load finds any more.
use todero_protocol_native.Base.{
  ◌≡◌, refl, sym, ap, ◌∙◌, ℕ, zero, suc, ◌+◌, ◌≤◌, ◌<◌, leb_false→lt, length-append, true, none,
  some, Option, List, [], ◌∷◌, ◌++◌, All, All-append, leb, ◌==◌, ==_iff, Bool-cases, inl, inr,
  length, if-elim, arith,
}
use todero_protocol_native.Base.BTreeMap.{get, remove, get-remove}
use todero_protocol_native.Store.{Entry, Shard, shard_at}
use todero_protocol_native.Store.Shards.{live}
use todero_protocol_native.Store.Contract.{AgreeFrom, live-live}
use todero_protocol_native.Store.Scan.{expired_keys, remove_keys, scan_shards}
use todero_protocol_native.Store.Disk.Files.{remove_all}

-- The order in which a `HashMap` gives its entries: each pair of it is an entry of the map.
pub record Iteration : Type 0 where
  pub iter : Shard → List (ℕ × Entry)
  pub get-iter : (m : Shard) → All (λ p. get p.0 m ≡ some p.1) (iter m)

-- No load of the id finds an entry from `now` on.
abbrev pub IsGone : ℕ → Shard → ℕ → Type 0
IsGone now m cid = live now (get cid m) ≡ none

expired_keys-All :
    (P : ℕ → Type 0) (now limit n : ℕ) (pairs : List (ℕ × Entry)) (keys : List ℕ)
    → All (λ p. leb p.1.expires_at_ms now ≡ true → P p.0) pairs
    → All P keys
    → All P (expired_keys now limit n pairs keys)
unfolding expired_keys
expired_keys-All P now limit n [] keys h k = k
expired_keys-All P now limit n ((cid, entry) ∷ pairs) keys (h, hs) k =
    if-elim (All P) (leb entry.expires_at_ms now)
      (λ e.
        let more = All-append P keys (cid ∷ []) k (h e, tt) in
        if-elim (All P) (leb limit (n + length (keys ++ (cid ∷ [])))) (λ _. more)
          (λ _. expired_keys-All P now limit n pairs (keys ++ (cid ∷ [])) hs more))
      (λ _. expired_keys-All P now limit n pairs keys hs k)

-- The keys that a scan takes from a map are those of expired entries.
pub expired_keys-IsGone :
    (now limit n : ℕ) (order : Iteration) (m : Shard)
    → All (IsGone now m) (expired_keys now limit n (order.iter m) [])
expired_keys-IsGone now limit n order m =
    expired_keys-All (IsGone now m) now limit n (order.iter m) []
      (dead (order.iter m) (order.get-iter m)) tt
  where
    dead :
        (pairs : List (ℕ × Entry))
        → All (λ p. get p.0 m ≡ some p.1) pairs
        → All (λ p. leb p.1.expires_at_ms now ≡ true → IsGone now m p.0) pairs
    dead [] h = tt
    dead ((cid, entry) ∷ pairs) (h, hs) = ((λ e. rw h (ground (arith, e))), dead pairs hs)

-- They are no more than the limit leaves room for.
pub expired_keys-length :
    (now limit n : ℕ) (pairs : List (ℕ × Entry)) (keys : List ℕ)
    → n + length keys < limit
    → n + length (expired_keys now limit n pairs keys) ≤ limit
unfolding expired_keys
expired_keys-length now limit n [] keys h = omega (arith, h)
expired_keys-length now limit n ((cid, entry) ∷ pairs) keys h =
    let more = keys ++ (cid ∷ []) in
    let full : n + length more ≤ limit = omega (arith, h, length-append keys (cid ∷ [])) in
    if-elim {A = List ℕ} (λ ks. n + length ks ≤ limit) (leb entry.expires_at_ms now)
      (λ _.
        if-elim {A = List ℕ} (λ ks. n + length ks ≤ limit) (leb limit (n + length more)) (λ _. full)
          (λ e. expired_keys-length now limit n pairs more (leb_false→lt _ _ e)))
      (λ _. expired_keys-length now limit n pairs keys h)

gone_later :
    (now later : ℕ) (o : Option Entry) → live now o ≡ none → now ≤ later → live later o ≡ none
gone_later now later o e le = sym (live-live now later o le) ∙ ap (live later) e

-- Removing an entry that no load finds changes nothing for a load.
pub removed-AgreeFrom :
    (now cid : ℕ) (m : Shard)
    → IsGone now m cid
    → (i : ℕ) → AgreeFrom now (get i (remove cid m)) (get i m)
removed-AgreeFrom now cid m gone i later le = elim (Bool-cases (cid == i)) [
  | inl e ↦
      ap (live later) {y = none} (get-remove i cid m ∙ rw e)
      ∙ sym (gone_later now later (get i m) (rw (sym ((==_iff cid i).0 e)) gone) le)
  | inr e ↦ ap (live later) {y = get i m} (get-remove i cid m ∙ rw e)
]

IsGone-remove :
    (now cid : ℕ) (m : Shard) (cids : List ℕ)
    → IsGone now m cid
    → All (IsGone now m) cids
    → All (IsGone now (remove cid m)) cids
IsGone-remove now cid m [] gone h = tt
IsGone-remove now cid m (c ∷ cids) gone (h, hs) =
    (removed-AgreeFrom now cid m gone c now (omega arith) ∙ h, IsGone-remove now cid m cids gone hs)

pub remove_all-AgreeFrom :
    (now : ℕ) (cids : List ℕ) (m : Shard)
    → All (IsGone now m) cids
    → (i : ℕ) → AgreeFrom now (get i (remove_all cids m)) (get i m)
remove_all-AgreeFrom now [] m h i later le = refl
remove_all-AgreeFrom now (cid ∷ cids) m (h, hs) i later le =
    remove_all-AgreeFrom now cids (remove cid m) (IsGone-remove now cid m cids h hs) i later le
    ∙ removed-AgreeFrom now cid m h i later le

remove_keys-AgreeFrom :
    (now limit : ℕ) (cids removed : List ℕ) (m : Shard)
    → All (IsGone now m) cids
    → (i : ℕ) → AgreeFrom now (get i (remove_keys limit cids removed m).1) (get i m)
unfolding remove_keys
remove_keys-AgreeFrom now limit [] removed m h i later le = refl
remove_keys-AgreeFrom now limit (cid ∷ cids) removed m (h, hs) i later le =
    if-elim {A = List ℕ × Shard} (λ r. live later (get i r.1) ≡ live later (get i m))
      (leb limit (length (removed ++ (cid ∷ [])))) (λ _. removed-AgreeFrom now cid m h i later le)
      (λ _.
        remove_keys-AgreeFrom now limit cids (removed ++ (cid ∷ [])) (remove cid m)
          (IsGone-remove now cid m cids h hs) i later le
        ∙ removed-AgreeFrom now cid m h i later le)

module _ (order : Iteration) (now limit : ℕ) where
  pub scan_shards-AgreeFrom :
      (maps : List Shard) (removed : List ℕ) (k i : ℕ)
      → AgreeFrom now
          (get i (shard_at k (scan_shards order.iter now limit maps removed).1))
          (get i (shard_at k maps))
  unfolding scan_shards shard_at
  scan_shards-AgreeFrom [] removed k i later le = refl
  scan_shards-AgreeFrom (map ∷ maps) removed zero i later le =
      if-elim {A = List ℕ × List Shard}
        (λ r. live later (get i (shard_at zero r.1)) ≡ live later (get i map))
        (leb limit (length removed)) (λ _. refl)
        (λ _.
          remove_keys-AgreeFrom now limit _ removed map
            (expired_keys-IsGone now limit (length removed) order map) i later le)
  scan_shards-AgreeFrom (map ∷ maps) removed (suc k) i later le =
      if-elim {A = List ℕ × List Shard}
        (λ r. live later (get i (shard_at (suc k) r.1)) ≡ live later (get i (shard_at k maps)))
        (leb limit (length removed)) (λ _. refl) (λ _. scan_shards-AgreeFrom maps _ k i later le)

  pub scan_shards-shards :
      (maps : List Shard) (removed : List ℕ)
      → length (scan_shards order.iter now limit maps removed).1 ≡ length maps
  unfolding scan_shards
  scan_shards-shards [] removed = refl
  scan_shards-shards (map ∷ maps) removed =
      if-elim {A = List ℕ × List Shard} (λ r. length r.1 ≡ length (map ∷ maps))
        (leb limit (length removed)) (λ _. refl) (λ _. ap suc (scan_shards-shards maps _))
