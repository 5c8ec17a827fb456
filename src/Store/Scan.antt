-- ===== src/Store/Scan.antt =====
-- `scan_expired` of the in-memory store of v3-store/src/lib.rs. The shards are locked one after the
-- other; no other call comes in between.
use todero_protocol_native.Base.{
  ℕ, ◌+◌, ◌≤◌, ◌<◌, List, [], ◌∷◌, ◌++◌, if◌then◌else◌, leb, ◌==◌, length, arith, length-append,
  if-elim, leb_false→lt,
}
use todero_protocol_native.Base.BTreeMap.{remove}
use todero_protocol_native.Store.{Entry, Shard, InMemorySessionStore}

-- The first loop over a shard: the keys of expired entries, until the limit is reached.
unfoldable pub expired_keys : ℕ → ℕ → ℕ → List (ℕ × Entry) → List ℕ → List ℕ
expired_keys now_ms limit removed_len [] keys = keys
expired_keys now_ms limit removed_len ((cid, entry) ∷ entries) keys =
    let rest = expired_keys now_ms limit removed_len entries (keys ++ (cid ∷ [])) in
    let skip = expired_keys now_ms limit removed_len entries keys in
    if leb entry.expires_at_ms now_ms
    then if leb limit (removed_len + length (keys ++ (cid ∷ []))) then keys ++ (cid ∷ []) else rest
    else skip

-- The second loop, which removes them.
unfoldable pub remove_keys : ℕ → List ℕ → List ℕ → Shard → List ℕ × Shard
remove_keys limit [] removed map = (removed, map)
remove_keys limit (cid ∷ keys) removed map =
    let rest = remove_keys limit keys (removed ++ (cid ∷ [])) (remove cid map) in
    if leb limit (length (removed ++ (cid ∷ [])))
    then (removed ++ (cid ∷ []), remove cid map)
    else rest

module _ (iter : Shard → List (ℕ × Entry)) where
  -- The loop over the shards. `iter` is the order in which a `HashMap` gives its entries.
  unfoldable pub scan_shards : ℕ → ℕ → List Shard → List ℕ → List ℕ × List Shard
  scan_shards now_ms limit [] removed = (removed, [])
  scan_shards now_ms limit (map ∷ maps) removed =
      let keys = expired_keys now_ms limit (length removed) (iter map) [] in
      let r = remove_keys limit keys removed map in
      let rest = scan_shards now_ms limit maps r.0 in
      if leb limit (length removed) then (removed, map ∷ maps) else (rest.0, r.1 ∷ rest.1)

  unfoldable pub scan_expired : ℕ → ℕ → InMemorySessionStore → List ℕ × InMemorySessionStore
  scan_expired now_ms limit self =
      let r = scan_shards now_ms limit self.shards [] in
      if limit == 0 then ([], self) else (r.0, record { shards = r.1 })

remove_keys-length :
    (limit : ℕ) (keys removed : List ℕ) (map : Shard)
    → length removed < limit
    → length (remove_keys limit keys removed map).0 ≤ limit
unfolding remove_keys
remove_keys-length limit [] removed map h = omega (arith, h)
remove_keys-length limit (cid ∷ keys) removed map h =
    let n = length-append removed (cid ∷ []) in
    if-elim {A = List ℕ × Shard} (λ r. length r.0 ≤ limit)
      (leb limit (length (removed ++ (cid ∷ [])))) (λ _. omega (arith, h, n))
      (λ e.
        remove_keys-length limit keys (removed ++ (cid ∷ [])) (remove cid map) (leb_false→lt _ _ e))

module _ (iter : Shard → List (ℕ × Entry)) where
  scan_shards-length :
      (now limit : ℕ) (maps : List Shard) (removed : List ℕ)
      → length removed ≤ limit
      → length (scan_shards iter now limit maps removed).0 ≤ limit
  unfolding scan_shards
  scan_shards-length now limit [] removed h = h
  scan_shards-length now limit (map ∷ maps) removed h =
      if-elim {A = List ℕ × List Shard} (λ r. length r.0 ≤ limit) (leb limit (length removed))
        (λ _. h)
        (λ e.
          scan_shards-length now limit maps _
            (remove_keys-length limit _ removed map (leb_false→lt _ _ e)))

  -- A scan returns at most `limit` ids, whatever the order of the maps.
  pub scan_expired-length :
      (now limit : ℕ) (self : InMemorySessionStore)
      → length (scan_expired iter now limit self).0 ≤ limit
  unfolding scan_expired
  scan_expired-length now limit self =
      if-elim {A = List ℕ × InMemorySessionStore} (λ r. length r.0 ≤ limit) (limit == 0)
        (λ _. omega arith) (λ _. scan_shards-length now limit self.shards [] (omega arith))
