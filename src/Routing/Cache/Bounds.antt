-- ===== src/Routing/Cache/Bounds.antt =====
-- The size of the cache over any calls, and the fate of a new entry in a full cache.
use hypern.Prelude.{
  ℕ, ◌+◌, ◌≤◌, String, ◌≡◌, refl, ap, ◌∙◌, true, [], ◌∷◌, arith, leb, if◌then◌else◌, length,
  string_eq, nat_eq,
}
use hypern.Prelude.Map
use hypern.Prelude.Map.{Map, Distinct, lookup-insert, lookup-remove}
use hypern.Routing.Cache.{u64_max, CachedRoute, RouteCache, new_cached, evict_lru, insert}
use hypern.Routing.Cache.Eviction.{IsOldest, InTime, evict_lru-IsOldest}

module _ {Route : Type 0} where
  pub length-modify :
      (k : ℕ) (f : CachedRoute Route → CachedRoute Route) (m : Map ℕ (CachedRoute Route))
      → length (Map.modify k f m) ≡ length m
  unfolding Map.modify
  length-modify k f [] = refl
  length-modify k f ((j, v) ∷ m) = ground (arith, length-modify k f m)

module _ (Route : Type 0) where
  -- Within its size, each hash once, and every access before the largest time.
  abbrev pub IsBounded : RouteCache Route → Type 0
  IsBounded c = Distinct c.cache × (length c.cache ≤ c.max_size) × InTime Route c.cache

  -- Bounded, with at most one more access, and of the same size limit.
  abbrev pub Follows : RouteCache Route → RouteCache Route → Type 0
  Follows c z = IsBounded z × (z.access_counter ≤ c.access_counter + 1) × (z.max_size ≡ c.max_size)

  -- What `insert` makes of a full cache.
  pub insert_full :
      (h : ℕ) (r : Route) (ps : Map String String) (c : RouteCache Route)
      → Distinct c.cache
      → InTime Route c.cache
      → length c.cache ≡ c.max_size
      → 1 ≤ c.max_size
      → (k : ℕ) × IsOldest Route c.cache u64_max k
        × (insert Route h r ps c
            ≡ record c { cache = Map.insert h (new_cached Route r ps) (Map.remove k c.cache) })
        × (length (Map.remove k c.cache) + 1 ≡ length c.cache)
  unfolding insert
  insert_full h r ps c d a full one =
      let test : leb c.max_size (length c.cache) ≡ true = ground (arith, full) in
      let (k, old, same, len) = evict_lru-IsOldest Route c d a (omega (arith, full, one)) in
      (
        k,
        old,
        ap
            (λ (z : RouteCache Route). record z {
              cache = Map.insert h (new_cached Route r ps) z.cache;
            })
            (ap (λ b. if b then evict_lru Route c else c) test ∙ same),
        len,
      )
