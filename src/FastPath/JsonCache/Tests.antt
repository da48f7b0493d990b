-- ===== src/FastPath/JsonCache/Tests.antt =====
-- Tests of the cache of JSON responses, and the theorem at a concrete input.
use hypern.Prelude.Map
use hypern.FastPath.JsonCache.{
  JsonResponseCache, new, get, least_hit, evict_lru, insert_with_ttl, insert, combined,
}
use hypern.FastPath.JsonCache.Freshness.{
  get-insert_with_ttl, Call, gets, inserts, invalidates, run, step,
}
use hypern.Prelude.{◌≡◌, refl, none, some, List, [], ◌∷◌, arith, string_eq, nat_eq}

responses : Unit {0}
unfolding get least_hit evict_lru insert_with_ttl Map.lookup Map.insert Map.remove Map.modify
    Map.retain
responses = tt

-- Two entries fill the cache; the first was asked for.
abbrev full : JsonResponseCache
full = (get 1 7 (insert 0 8 "b" (insert 0 7 "a" (new 2 10)))).0

eviction_test :
    ((get 2 7 (insert 2 9 "c" full)).1 ≡ some "a")
    × ((get 2 8 (insert 2 9 "c" full)).1 ≡ none)
    × ((get 2 9 (insert 2 9 "c" full)).1 ≡ some "c")
unfolding responses
eviction_test = (refl, refl, refl)

-- Different routes and parameters have the same text, and so the same hash.
combined_test : combined "/u/:id" "a" ≡ combined "/u/" "id:a"
combined_test = refl

-- Requests for the key and for others, and the removal of another key.
abbrev between : List Call
between = gets 3 9 ∷ gets 4 7 ∷ invalidates 7 ∷ inserts 5 8 "d" 10 ∷ gets 6 9 ∷ []

get-insert_with_ttl_example :
    (get 12 9 (run between (insert_with_ttl 2 9 "c" 10 full))).1 ≡ some "c"
unfolding responses step
get-insert_with_ttl_example =
    get-insert_with_ttl 2 12 9 "c" 10 full between
      (omega arith, (omega arith, (refl, ((refl, omega arith), (omega arith, tt)))))
