-- ===== src/FastPath/JsonCache/Freshness.antt =====
-- What the cache of JSON responses answers, and for how long.
use hypern.Prelude.Map
use hypern.Prelude.Map.{Map}
use hypern.FastPath.JsonCache.{
  CachedJson, JsonResponseCache, new_cached, is_expired, get, insert_with_ttl, invalidate, hit,
  evict_lru, evict_expired,
}
use hypern.Prelude.{
  ℕ, ◌-◌, ◌≤◌, ◌<◌, String, ◌≡◌, refl, sym, ◌∙◌, subst, inl, inr, true, false, Option, none, some,
  List, [], ◌∷◌, arith, ltb, leb, if◌then◌else◌, if-both, if-split, Bool-cases, Option-cases, ◌==◌,
  length, string_eq, nat_eq,
}

-- The answer of `get` from the entry.
abbrev answer : ℕ → Option CachedJson → Option String
answer now none = none
answer now (some e) = if is_expired now e then none else some e.bytes

get_answer :
    (now key : ℕ) (c : JsonResponseCache) → (get now key c).1 ≡ answer now (Map.lookup key c.cache)
unfolding get
get_answer now key c = elim (Option-cases (Map.lookup key c.cache)) [
  | inl e ↦ rw (e, get) refl
  | inr (v, e) ↦ elim (Bool-cases (is_expired now v)) [
    | inl x ↦ rw (e, x, get) refl
    | inr x ↦ rw (e, x, get) refl
  ]
]

-- Calls between the insertion and the request.
pub data Call : Type 0 where
  gets : ℕ → ℕ → Call
  inserts : ℕ → ℕ → String → ℕ → Call
  invalidates : ℕ → Call

unfoldable pub step : Call → JsonResponseCache → JsonResponseCache
unfolding get insert_with_ttl
step (gets now key) c = (get now key c).0
step (inserts now key bytes ttl) c = insert_with_ttl now key bytes ttl c
step (invalidates key) c = invalidate key c

unfoldable pub run : List Call → JsonResponseCache → JsonResponseCache
unfolding step
run [] c = c
run (call ∷ calls) c = run calls (step call c)

-- The call leaves the key's entry: any request up to the time, an insertion under another key while
-- the cache is not full, the removal of another key.
abbrev pub Spares : ℕ → ℕ → Call → JsonResponseCache → Type 0
Spares key later (gets now k) c = now ≤ later
Spares key later (inserts now k bytes ttl) c = ((k == key) ≡ false) × (length c.cache < c.max_size)
Spares key later (invalidates k) c = (k == key) ≡ false

abbrev pub AllSpare : ℕ → ℕ → List Call → JsonResponseCache → Type 0
AllSpare key later [] c = Unit
AllSpare key later (call ∷ calls) c =
    Spares key later call c × AllSpare key later calls (step call c)

-- The entry that was inserted, with any number of hits; or it expired and was taken out.
abbrev Stands : ℕ → ℕ → String → ℕ → Option CachedJson → Type 0
Stands now later bytes ttl none = ltb ttl (later - now) ≡ true
Stands now later bytes ttl (some e) = (e.bytes ≡ bytes) × (e.created_at ≡ now) × (e.ttl ≡ ttl)

answer-Stands :
    (now later : ℕ) (bytes : String) (ttl : ℕ) (o : Option CachedJson)
    → Stands now later bytes ttl o
    → answer later o ≡ (if ltb ttl (later - now) then none else some bytes)
answer-Stands now later bytes ttl none gone = rw gone refl
answer-Stands now later bytes ttl (some e) (b, c, t) = rw (b, c, t) refl

-- What a request at `time` for the key leaves of the entry.
abbrev asked : ℕ → Option CachedJson → Option CachedJson
asked time none = none
asked time (some e) = if is_expired time e then none else some (hit e)

lookup-get :
    (time k key : ℕ) (c : JsonResponseCache)
    → Map.lookup key (get time k c).0.cache
      ≡ (if k == key then asked time (Map.lookup key c.cache) else Map.lookup key c.cache)
unfolding get
lookup-get time k key c = elim (Option-cases (Map.lookup k c.cache)) [
  | inl e ↦ elim (Bool-cases (k == key)) [
    | inr n ↦ rw (e, n, get) refl
    | inl y ↦
        let absent : Map.lookup key c.cache ≡ none =
          subst (λ z. Map.lookup z c.cache ≡ none) ((nat_eq.beq_iff k key).0 y) e in
        rw (e, y, absent, get) refl
  ]
  | inr (v, e) ↦ elim (Bool-cases (k == key)) [
    | inr n ↦ elim (Bool-cases (is_expired time v)) [
      | inl x ↦ rw (e, x, n, get) (Map.lookup-remove k key c.cache ∙ rw n refl)
      | inr x ↦ rw (e, x, n, get) (Map.lookup-modify k key hit c.cache ∙ rw n refl)
    ]
    | inl y ↦
        let here : Map.lookup key c.cache ≡ some v =
          subst (λ z. Map.lookup z c.cache ≡ some v) ((nat_eq.beq_iff k key).0 y) e in
        elim (Bool-cases (is_expired time v)) [
          | inl x ↦ rw (e, x, y, here, get) (Map.lookup-remove k key c.cache ∙ rw (y, x) refl)
          | inr x ↦
              rw (e, x, y, here, get) (Map.lookup-modify k key hit c.cache ∙ rw (y, here, x) refl)
        ]
  ]
]

asked-Stands :
    (time now later : ℕ) (bytes : String) (ttl : ℕ) (o : Option CachedJson)
    → time ≤ later
    → Stands now later bytes ttl o
    → Stands now later bytes ttl (asked time o)
asked-Stands time now later bytes ttl none le s = s
asked-Stands time now later bytes ttl (some e) le (b, c, t) =
    if-split (Stands now later bytes ttl) (is_expired time e)
      (λ x.
        let past : e.ttl < time - e.created_at = ground (arith, x) in
        ground (arith, past, c, t, le))
      (λ x. (b, c, t))

step-Stands :
    (call : Call) (c : JsonResponseCache) (key now later : ℕ) (bytes : String) (ttl : ℕ)
    → Spares key later call c
    → Stands now later bytes ttl (Map.lookup key c.cache)
    → Stands now later bytes ttl (Map.lookup key (step call c).cache)
unfolding step insert_with_ttl
step-Stands (gets time k) c key now later bytes ttl le s =
    subst (Stands now later bytes ttl) (sym (lookup-get time k key c)) (
      if-both (Stands now later bytes ttl) (k == key)
        (asked-Stands time now later bytes ttl (Map.lookup key c.cache) le s) s)
step-Stands (inserts time k text lives) c key now later bytes ttl (other, free) s =
    let room : leb c.max_size (length c.cache) ≡ false = ground (arith, free) in
    subst (Stands now later bytes ttl)
      (sym (
        rw (room, room, insert_with_ttl)
          (Map.lookup-insert k key (new_cached time text lives) c.cache ∙ rw other refl)))
      s
step-Stands (invalidates k) c key now later bytes ttl other s =
    subst (Stands now later bytes ttl) (sym (Map.lookup-remove k key c.cache ∙ rw other refl)) s

run-Stands :
    (calls : List Call) (c : JsonResponseCache) (key now later : ℕ) (bytes : String) (ttl : ℕ)
    → AllSpare key later calls c
    → Stands now later bytes ttl (Map.lookup key c.cache)
    → Stands now later bytes ttl (Map.lookup key (run calls c).cache)
unfolding run
run-Stands [] c key now later bytes ttl a s = s
run-Stands (call ∷ calls) c key now later bytes ttl (a, more) s =
    run-Stands calls (step call c) key now later bytes ttl more
      (step-Stands call c key now later bytes ttl a s)

-- A response that was inserted, in a cache in any state, is answered until its time to live has
-- passed, and from then on nothing is. In between there may be any requests at no later time,
-- removals of other keys, and insertions under other keys while the cache is not full; an insertion
-- into a full cache may evict the response.
pub get-insert_with_ttl :
    (now later key : ℕ) (bytes : String) (ttl : ℕ) (c : JsonResponseCache) (calls : List Call)
    → AllSpare key later calls (insert_with_ttl now key bytes ttl c)
    → (get later key (run calls (insert_with_ttl now key bytes ttl c))).1
      ≡ (if ltb ttl (later - now) then none else some bytes)
unfolding insert_with_ttl
get-insert_with_ttl now later key bytes ttl c calls spared =
    let fresh = if leb c.max_size (length c.cache) then evict_expired now c.cache else c.cache in
    let room = if leb c.max_size (length fresh) then evict_lru fresh else fresh in
    let found : Map.lookup key (Map.insert key (new_cached now bytes ttl) room)
        ≡ some (new_cached now bytes ttl) =
      Map.lookup-insert key key (new_cached now bytes ttl) room
      ∙ rw ((nat_eq.beq_iff key key).1 refl) refl in
    let put = insert_with_ttl now key bytes ttl c in
    get_answer later key (run calls put)
    ∙ answer-Stands now later bytes ttl (Map.lookup key (run calls put).cache) (
        run-Stands calls put key now later bytes ttl spared
          (subst (Stands now later bytes ttl) (sym found) (refl, refl, refl)))
