-- ===== src/Routing/Cache/Tests.antt =====
-- Tests of the cache, and the theorems at concrete inputs.
use hypern.Prelude.{
  ℕ, ◌+◌, String, ◌≡◌, refl, none, List, [], ◌∷◌, arith, length, string_eq, nat_eq,
}
use hypern.Prelude.Map
use hypern.Prelude.Map.{Map}
use hypern.Routing.Cache.{
  u64_max, RouteCache, CachedRoute, Call, gets, inserts, new, get, oldest, evict_lru, insert, step,
  run,
}
use hypern.Routing.Cache.Eviction.{IsOldest, evict_lru-IsOldest}
use hypern.Routing.Cache.Newest.{get-insert-insert}

cached : Unit {0}
unfolding get oldest evict_lru insert step run Map.lookup Map.insert Map.remove Map.modify
cached = tt

abbrev calls : List (Call String)
calls = inserts 1 "a" [] ∷ inserts 2 "b" [] ∷ gets 1 ∷ gets 1 ∷ gets 2 ∷ []

abbrev entry_a : CachedRoute String
entry_a = record { route = "a"; path_params = []; hits = 3; last_access = 1 }

abbrev entry_b : CachedRoute String
entry_b = record { route = "b"; path_params = []; hits = 2; last_access = 2 }

abbrev full : RouteCache String
full = record { cache = (1, entry_a) ∷ (2, entry_b) ∷ []; max_size = 2; access_counter = 3 }

full_test : run String (new String 2) calls ≡ full
unfolding cached
full_test = refl

evict_lru-IsOldest_test :
    (k : ℕ) × IsOldest String full.cache u64_max k
    × (evict_lru String full ≡ record full { cache = Map.remove k full.cache })
    × (length (Map.remove k full.cache) + 1 ≡ 2)
unfolding cached
evict_lru-IsOldest_test =
    evict_lru-IsOldest String full (refl, (refl, tt)) (omega arith, (omega arith, tt)) (omega arith)

get-insert-insert_test :
    (get String 3 (insert String 4 "d" [] (insert String 3 "c" [] full))).1 ≡ none
unfolding cached
get-insert-insert_test =
    get-insert-insert String 3 4 "c" "d" [] [] full (refl, (refl, tt))
      (omega arith, (omega arith, tt)) (omega arith, (omega arith, tt)) refl (omega arith) refl
      (omega arith)
