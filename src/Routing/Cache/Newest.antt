-- ===== src/Routing/Cache/Newest.antt =====
-- A new entry in a full cache is the next one to go.
use hypern.Prelude.{
  ℕ, ◌≤◌, ◌<◌, String, ◌≡◌, sym, ap, ◌∙◌, ◌≢◌, inl, inr, none, some, arith, eqb_iff, Bool-cases,
  ◌==◌, length, string_eq, nat_eq,
}
use hypern.Prelude.Map
use hypern.Prelude.Map.{
  Map, Distinct, insert-Distinct, remove-Distinct, length-insert, lookup-insert, lookup-remove,
  remove_absent,
}
use hypern.Prelude.Map.All.{AllValues, AllValues-lookup, insert-AllValues, remove-AllValues}
use hypern.Routing.Cache.{u64_max, CachedRoute, RouteCache, new_cached, get, insert}
use hypern.Routing.Cache.Eviction.{IsOldest, InTime}
use hypern.Routing.Cache.Bounds.{insert_full}

module _ (Route : Type 0) where
  -- Every entry was accessed, after the first access of all.
  abbrev pub IsUsed : CachedRoute Route → Type 0
  IsUsed entry = 1 ≤ entry.last_access

  -- In a table whose other entries are used, the oldest entry is the new one.
  oldest-new :
      (h k : ℕ) (r : Route) (ps : Map String String) (m : Map ℕ (CachedRoute Route))
      → AllValues IsUsed m
      → IsOldest Route (Map.insert h (new_cached Route r ps) m) u64_max k
      → k ≡ h
  oldest-new h k r ps m used (e, found, before, least) =
      let front : Map.lookup h (Map.insert h (new_cached Route r ps) m)
          ≡ some (new_cached Route r ps) =
        ground (arith, lookup-insert h h (new_cached Route r ps) m, eqb_iff h h) in
      let fresh =
        AllValues-lookup (λ other. e.last_access ≤ other.last_access) h
          (Map.insert h (new_cached Route r ps) m) least front in
      elim (Bool-cases (h == k)) [
        | inl same ↦ sym ((eqb_iff h k).0 same)
        | inr other ↦
            let behind : Map.lookup k m ≡ some e =
              ground (arith, other, found, lookup-insert h k (new_cached Route r ps) m) in
            absurd (omega (arith, fresh, AllValues-lookup IsUsed k m used behind))
      ]

  get_absent :
      (h : ℕ) (c : RouteCache Route) → Map.lookup h c.cache ≡ none → (get Route h c).1 ≡ none
  unfolding get
  get_absent h c e = ground (arith, e)

  -- Into a full cache whose entries were all used after the first access of all, two new hashes are
  -- inserted one after the other: the second insertion evicts the first one's entry, so `get` does
  -- not find it.
  pub get-insert-insert :
      (h₁ h₂ : ℕ) (r₁ r₂ : Route) (ps₁ ps₂ : Map String String) (c : RouteCache Route)
      → Distinct c.cache
      → InTime Route c.cache
      → AllValues IsUsed c.cache
      → length c.cache ≡ c.max_size
      → 1 ≤ c.max_size
      → Map.lookup h₁ c.cache ≡ none
      → h₁ ≢ h₂
      → (get Route h₁ (insert Route h₂ r₂ ps₂ (insert Route h₁ r₁ ps₁ c))).1 ≡ none
  get-insert-insert h₁ h₂ r₁ r₂ ps₁ ps₂ c d a used full one fresh other =
      let (k, old, same, len) = insert_full Route h₁ r₁ ps₁ c d a full one in
      let rest = Map.remove k c.cache in
      let first = Map.insert h₁ (new_cached Route r₁ ps₁) rest in
      let absent : Map.lookup h₁ rest ≡ none = ground (arith, fresh, lookup-remove k h₁ c.cache) in
      let size : length first ≡ c.max_size =
        ground (arith, absent, len, full, length-insert h₁ (new_cached Route r₁ ps₁) rest) in
      let timely =
        insert-AllValues (λ entry. entry.last_access < u64_max) h₁ (new_cached Route r₁ ps₁) rest
          (omega arith) (remove-AllValues (λ entry. entry.last_access < u64_max) k c.cache a) in
      let (k', old', same', len') =
        insert_full Route h₂ r₂ ps₂ (record c { cache = first })
          (insert-Distinct h₁ (new_cached Route r₁ ps₁) rest (remove-Distinct k c.cache d)) timely
          size one in
      let new' = oldest-new h₁ k' r₁ ps₁ rest (remove-AllValues IsUsed k c.cache used) old' in
      let gone : Map.lookup h₁ (Map.insert h₂ (new_cached Route r₂ ps₂) (Map.remove k' first))
          ≡ none =
        ground (
          arith,
          new',
          other,
          lookup-insert h₂ h₁ (new_cached Route r₂ ps₂) (Map.remove k' first),
          lookup-remove k' h₁ first,
          eqb_iff h₂ h₁,
          eqb_iff k' h₁,
        ) in
      ap (λ z. (get Route h₁ (insert Route h₂ r₂ ps₂ z)).1) same
      ∙ ap (λ z. (get Route h₁ z).1) same'
      ∙ get_absent h₁ _ gone
