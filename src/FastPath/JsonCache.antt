-- ===== src/FastPath/JsonCache.antt =====
-- src/fast_path/json_cache.rs, `JsonResponseCache`: responses by the hash of their key, each with a
-- time to live. The clock is an argument, and times are natural numbers of nanoseconds. A response's
-- bytes are a text. The counter of hits does not wrap.
mod Freshness
mod Tests
use Prim.Native.String
use hypern.Prelude.Map
use hypern.Prelude.Map.{Map}
use hypern.Prelude.{
  ℕ, suc, ◌-◌, String, Bool, not, Option, none, some, [], ◌∷◌, ltb, leb, if◌then◌else◌, length,
  string_eq, nat_eq,
}

pub record CachedJson : Type 0 where
  pub bytes : String
  pub created_at : ℕ
  pub ttl : ℕ
  pub hits : ℕ

-- CachedJson::new
abbrev pub new_cached : ℕ → String → ℕ → CachedJson
new_cached now bytes ttl = record { bytes = bytes; created_at = now; ttl = ttl; hits = 0 }

-- `created_at.elapsed() > ttl`; `elapsed` is zero before the creation.
abbrev pub is_expired : ℕ → CachedJson → Bool
is_expired now e = ltb e.ttl (now - e.created_at)

pub record JsonResponseCache : Type 0 where
  pub cache : Map ℕ CachedJson
  pub max_size : ℕ
  pub default_ttl : ℕ

-- JsonResponseCache::new
abbrev pub new : ℕ → ℕ → JsonResponseCache
new max_size default_ttl = record { cache = []; max_size = max_size; default_ttl = default_ttl }

abbrev pub hit : CachedJson → CachedJson
hit e = record e { hits = suc e.hits }

unfoldable pub get : ℕ → ℕ → JsonResponseCache → JsonResponseCache × Option String
get now key_hash c = elim (Map.lookup key_hash c.cache) [
  | none ↦ (c, none)
  | some entry ↦
      if is_expired now entry
      then (record c { cache = Map.remove key_hash c.cache }, none)
      else (record c { cache = Map.modify key_hash hit c.cache }, some entry.bytes)
]

abbrev pub evict_expired : ℕ → Map ℕ CachedJson → Map ℕ CachedJson
evict_expired now cache = Map.retain (λ _ v. not (is_expired now v)) cache

-- The loop of `evict_lru`, from the least number of hits and its key so far.
unfoldable pub least_hit : ℕ → Option ℕ → Map ℕ CachedJson → Option ℕ
least_hit min_hits min_key [] = min_key
least_hit min_hits min_key ((key, entry) ∷ rest) =
    let lower = least_hit entry.hits (some key) rest in
    let same = least_hit min_hits min_key rest in if ltb entry.hits min_hits then lower else same

-- The first minimum is u64::MAX.
unfoldable pub evict_lru : Map ℕ CachedJson → Map ℕ CachedJson
evict_lru cache = elim (least_hit 18446744073709551615 none cache) [
  | none ↦ cache
  | some key ↦ Map.remove key cache
]

unfoldable pub insert_with_ttl : ℕ → ℕ → String → ℕ → JsonResponseCache → JsonResponseCache
insert_with_ttl now key_hash bytes ttl c =
    let fresh = if leb c.max_size (length c.cache) then evict_expired now c.cache else c.cache in
    let room = if leb c.max_size (length fresh) then evict_lru fresh else fresh in
    record c { cache = Map.insert key_hash (new_cached now bytes ttl) room }

abbrev pub insert : ℕ → ℕ → String → JsonResponseCache → JsonResponseCache
insert now key_hash bytes c = insert_with_ttl now key_hash bytes c.default_ttl c

abbrev pub invalidate : ℕ → JsonResponseCache → JsonResponseCache
invalidate key_hash c = record c { cache = Map.remove key_hash c.cache }

abbrev pub clear : JsonResponseCache → JsonResponseCache
clear c = record c { cache = [] }

-- The text that `compute_key_hash` hashes.
abbrev pub combined : String → String → String
combined route params = String.◌++◌ route (String.◌++◌ ":" params)
