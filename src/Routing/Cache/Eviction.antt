-- ===== src/Routing/Cache/Eviction.antt =====
-- Which entry an insertion evicts.
use hypern.Prelude.{
  ℕ, ◌+◌, ◌≤◌, ◌<◌, ◌≡◌, refl, ap, ◌∙◌, ◌⊎◌, inl, inr, Option, none, some, [], ◌∷◌, arith, ltb,
  eqb_iff, Bool-cases, length, string_eq, nat_eq,
}
use hypern.Prelude.Map
use hypern.Prelude.Map.{Map, Distinct}
use hypern.Prelude.Map.All.{AllValues}
use hypern.Routing.Cache.{u64_max, CachedRoute, RouteCache, oldest, evict_lru}

module _ (Route : Type 0) where
  -- An entry of the table that was accessed before `time`, and no later than any other entry.
  abbrev pub IsOldest : Map ℕ (CachedRoute Route) → ℕ → ℕ → Type 0
  IsOldest m time k =
      (entry : CachedRoute Route) × (Map.lookup k m ≡ some entry)
      × (entry.last_access < time)
      × AllValues (λ other. entry.last_access ≤ other.last_access) m

  lookup-behind :
      (i k : ℕ) (e f : CachedRoute Route) (m : Map ℕ (CachedRoute Route))
      → Map.lookup i m ≡ none
      → Map.lookup k m ≡ some f
      → Map.lookup k ((i, e) ∷ m) ≡ some f
  unfolding Map.lookup
  lookup-behind i k e f m absent found =
      ground (arith, eqb_iff i k, λ (q : i ≡ k). ap (λ z. Map.lookup z m) q)

  lookup-front :
      (i : ℕ) (e : CachedRoute Route) (m : Map ℕ (CachedRoute Route))
      → Map.lookup i ((i, e) ∷ m) ≡ some e
  unfolding Map.lookup
  lookup-front i e m = ground (arith, eqb_iff i i)

  oldest_lem :
      (m : Map ℕ (CachedRoute Route)) (key : Option ℕ) (time : ℕ)
      → Distinct m
      → ((k : ℕ) × (oldest Route m key time ≡ some k) × IsOldest m time k)
        ⊎ ((oldest Route m key time ≡ key) × AllValues (λ other. time ≤ other.last_access) m)
  unfolding oldest
  oldest_lem [] key time d = inr (refl, tt)
  oldest_lem ((i, e) ∷ m) key time d = elim (Bool-cases (ltb e.last_access time)) [
    | inl older ↦
        let here : oldest Route ((i, e) ∷ m) key time ≡ oldest Route m (some i) e.last_access =
          rw older in
        elim (oldest_lem m (some i) e.last_access d.1) [
          | inl (k, same, (f, found, before, least)) ↦ inl (
            k,
            here ∙ same,
            (f, lookup-behind i k e f m d.0 found, ground arith, (ground arith, least)),
          )
          | inr (same, least) ↦
              inl (i, here ∙ same, (e, lookup-front i e m, ground arith, (omega arith, least)))
        ]
    | inr newer ↦
        let here : oldest Route ((i, e) ∷ m) key time ≡ oldest Route m key time = rw newer in
        elim (oldest_lem m key time d.1) [
          | inl (k, same, (f, found, before, least)) ↦ inl (
            k,
            here ∙ same,
            (f, lookup-behind i k e f m d.0 found, before, (ground arith, least)),
          )
          | inr (same, least) ↦ inr (here ∙ same, (ground arith, least))
        ]
  ]

  -- Every entry was accessed before the largest time.
  abbrev pub InTime : Map ℕ (CachedRoute Route) → Type 0
  InTime = AllValues (λ entry. entry.last_access < u64_max)

  none_late :
      (m : Map ℕ (CachedRoute Route))
      → InTime m
      → AllValues (λ other. u64_max ≤ other.last_access) m
      → length m ≡ 0
  none_late [] a b = refl
  none_late ((i, e) ∷ m) a b = absurd (omega (arith, a.0, b.0))

  -- `evict_lru` on a cache that is not empty, with each hash in it once and no entry accessed at the
  -- largest time, removes exactly one entry, and no entry was accessed before that one.
  pub evict_lru-IsOldest :
      (c : RouteCache Route)
      → Distinct c.cache
      → InTime c.cache
      → 1 ≤ length c.cache
      → (k : ℕ) × IsOldest c.cache u64_max k
        × (evict_lru Route c ≡ record c { cache = Map.remove k c.cache })
        × (length (Map.remove k c.cache) + 1 ≡ length c.cache)
  unfolding evict_lru
  evict_lru-IsOldest c d a h = elim (oldest_lem c.cache none u64_max d) [
    | inr (same, late) ↦ absurd (omega (arith, none_late c.cache a late))
    | inl (k, same, old) ↦
        (k, old, ground (arith, same), ground (arith, old.1, Map.length-remove k c.cache d))
  ]
