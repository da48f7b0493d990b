-- ===== src/Routing/Cache.antt =====
-- src/routing/cache.rs, `RouteCache`: matched routes by the hash of their method and path.
-- A route is only stored and returned, so its type is a parameter. Each method is one atomic step.
-- The counter of accesses does not wrap.
mod Eviction
mod Bounds
mod Newest
mod Tests
use hypern.Prelude.{
  ℕ, ◌+◌, String, Option, none, some, List, [], ◌∷◌, ltb, leb, if◌then◌else◌, length, string_eq,
  nat_eq,
}
use hypern.Prelude.Map
use hypern.Prelude.Map.{Map}

-- u64::MAX
abbrev pub u64_max : ℕ
u64_max = 18446744073709551615

module _ (Route : Type 0) where
  pub record CachedRoute : Type 0 where
    pub route : Route
    pub path_params : Map String String
    pub hits : ℕ
    pub last_access : ℕ

  -- CachedRoute::new
  abbrev pub new_cached : Route → Map String String → CachedRoute
  new_cached route path_params = record {
    route = route;
    path_params = path_params;
    hits = 1;
    last_access = 0;
  }

  pub record RouteCache : Type 0 where
    pub cache : Map ℕ CachedRoute
    pub max_size : ℕ
    pub access_counter : ℕ

  -- RouteCache::new
  abbrev pub new : ℕ → RouteCache
  new max_size = record { cache = []; max_size = max_size; access_counter = 0 }

  abbrev pub accessed : ℕ → CachedRoute → CachedRoute
  accessed access_time entry = record entry { hits = entry.hits + 1; last_access = access_time }

  unfoldable pub get : ℕ → RouteCache → RouteCache × Option CachedRoute
  get path_hash c = elim (Map.lookup path_hash c.cache) [
    | none ↦ (c, none)
    | some entry ↦ (
      record c {
        cache = Map.modify path_hash (accessed c.access_counter) c.cache;
        access_counter = c.access_counter + 1;
      },
      some (accessed c.access_counter entry),
    )
  ]

  -- The loop of `evict_lru`.
  unfoldable pub oldest : Map ℕ CachedRoute → Option ℕ → ℕ → Option ℕ
  oldest [] oldest_key oldest_time = oldest_key
  oldest ((k, entry) ∷ m) oldest_key oldest_time =
      let older = ltb entry.last_access oldest_time in
      oldest m (if older then some k else oldest_key)
        (if older then entry.last_access else oldest_time)

  unfoldable pub evict_lru : RouteCache → RouteCache
  unfolding oldest
  evict_lru c = elim (oldest c.cache none u64_max) [
    | none ↦ c
    | some key ↦ record c { cache = Map.remove key c.cache }
  ]

  unfoldable pub insert : ℕ → Route → Map String String → RouteCache → RouteCache
  unfolding evict_lru
  insert path_hash route path_params c =
      let c' = if leb c.max_size (length c.cache) then evict_lru c else c in
      record c' { cache = Map.insert path_hash (new_cached route path_params) c'.cache }

  unfoldable pub clear : RouteCache → RouteCache
  clear c = record c { cache = [] }

  -- The calls that change the cache, and a history of them.
  pub data Call : Type 0 where
    gets : ℕ → Call
    inserts : ℕ → Route → Map String String → Call
    clears : Call

  unfoldable pub step : RouteCache → Call → RouteCache
  step c (gets h) = (get h c).0
  step c (inserts h r ps) = insert h r ps c
  step c clears = clear c

  unfoldable pub run : RouteCache → List Call → RouteCache
  run c [] = c
  run c (x ∷ xs) = run (step c x) xs
