-- ===== src/Prelude/Map.antt =====
-- `HashMap` and `DashMap` as association lists. A new key goes to the end, an old one keeps its
-- place; iteration is in the order of the list, which stands for any order of the table.
pub mod All
use Prim.Native.Nat.{◌+◌}
use mathlib.Core.Path.{◌≡◌, refl, ap}
use mathlib.Core.Bool.{Bool}
use mathlib.Core.Option
use mathlib.Core.Option.{Option, none, some}
use mathlib.Core.List.{List, [], ◌∷◌}
use native.Mathlib.Omega.{arith}
use hypern.Prelude.Tests.{Eq, ◌==◌, if◌then◌else◌}
use hypern.Prelude.Lists.{length, is_some, elem}

abbrev pub Map {ℓ κ} : Type ℓ → Type κ → Type (ℓ ⊔ κ)
Map K V = List (K × V)

-- What `retain` leaves of an entry.
abbrev pub kept_if {ℓ} : {V : Type ℓ} → (V → Bool) → Option V → Option V
kept_if p none = none
kept_if p (some v) = if p v then some v else none

module _ {ℓ κ} {K : Type ℓ} {V : Type κ} where
  abbrev pub keys : Map K V → List K
  keys [] = []
  keys ((k, v) ∷ m) = k ∷ keys m

  abbrev pub values : Map K V → List V
  values [] = []
  values ((k, v) ∷ m) = v ∷ values m

  -- `iter_mut`
  unfoldable pub map_entries : (K → V → V) → Map K V → Map K V
  map_entries f [] = []
  map_entries f ((k, v) ∷ m) = (k, f k v) ∷ map_entries f m

  -- `retain`
  unfoldable pub retain : (K → V → Bool) → Map K V → Map K V
  retain p [] = []
  retain p ((k, v) ∷ m) = let rest = retain p m in if p k v then (k, v) ∷ rest else rest

module _ {ℓ κ} {K : Type ℓ} {V : Type κ} ⦃e : Eq K⦄ where
  unfoldable pub lookup : K → Map K V → Option V
  lookup k [] = none
  lookup k ((j, v) ∷ m) = if j == k then some v else lookup k m

  unfoldable pub insert : K → V → Map K V → Map K V
  insert key new [] = (key, new) ∷ []
  insert key new ((here, old) ∷ rest) =
      if here == key then (key, new) ∷ rest else (here, old) ∷ insert key new rest

  unfoldable pub remove : K → Map K V → Map K V
  remove k [] = []
  remove k ((j, v) ∷ m) = let rest = remove k m in if j == k then rest else (j, v) ∷ rest

  -- `get_mut`: the entry is changed in place, if there is one
  unfoldable pub modify : K → (V → V) → Map K V → Map K V
  modify k f [] = []
  modify k f ((j, v) ∷ m) = if j == k then (j, f v) ∷ m else (j, v) ∷ modify k f m

  abbrev pub contains_key : K → Map K V → Bool
  contains_key k m = is_some (lookup k m)

  -- No key stands twice.
  abbrev pub Distinct : Map K V → Type κ
  Distinct [] = Unit
  Distinct ((k, v) ∷ m) = (lookup k m ≡ none) × Distinct m

module _ {ℓ κ} {K : Type ℓ} {V : Type κ} ⦃e : Eq K⦄ where
  pub lookup-insert :
      (key other : K) (new : V) (table : Map K V)
      → lookup other (insert key new table)
        ≡ (if key == other then some new else lookup other table)
  unfolding lookup insert
  lookup-insert key other new [] = refl
  lookup-insert key other new ((here, old) ∷ rest) = ground (
    arith,
    lookup-insert key other new rest,
    e.beq_iff here key,
    e.beq_iff here other,
    e.beq_iff key other,
  )

  pub lookup-remove :
      (k j : K) (m : Map K V) → lookup j (remove k m) ≡ (if k == j then none else lookup j m)
  unfolding lookup remove
  lookup-remove k j [] = ground arith
  lookup-remove k j ((i, w) ∷ m) =
      ground (arith, e.beq_iff k j, e.beq_iff i k, e.beq_iff i j, lookup-remove k j m)

  pub lookup-modify :
      (k j : K) (f : V → V) (m : Map K V)
      → lookup j (modify k f m) ≡ (if k == j then Option.map f (lookup j m) else lookup j m)
  unfolding lookup modify
  lookup-modify k j f [] = ground arith
  lookup-modify k j f ((i, w) ∷ m) =
      ground (arith, e.beq_iff k j, e.beq_iff i k, e.beq_iff i j, lookup-modify k j f m)

  pub lookup-map_entries :
      (j : K) (f : K → V → V) (m : Map K V)
      → lookup j (map_entries f m) ≡ Option.map (f j) (lookup j m)
  unfolding lookup map_entries
  lookup-map_entries j f [] = refl
  lookup-map_entries j f ((i, w) ∷ m) = ground (arith, e.beq_iff i j, lookup-map_entries j f m)

  pub insert-Distinct : (k : K) (v : V) (m : Map K V) → Distinct m → Distinct (insert k v m)
  unfolding insert lookup
  insert-Distinct k v [] d = (refl, tt)
  insert-Distinct k v ((i, w) ∷ m) d =
      ground (arith, insert-Distinct k v m d.1, lookup-insert k i v m, e.beq_iff i k, e.beq_iff k i)

  pub remove-Distinct : (k : K) (m : Map K V) → Distinct m → Distinct (remove k m)
  unfolding remove
  remove-Distinct k [] d = tt
  remove-Distinct k ((i, w) ∷ m) d =
      ground (arith, remove-Distinct k m d.1, lookup-remove k i m, e.beq_iff i k, e.beq_iff k i)

  pub modify-Distinct : (k : K) (f : V → V) (m : Map K V) → Distinct m → Distinct (modify k f m)
  unfolding modify
  modify-Distinct k f [] d = tt
  modify-Distinct k f ((i, w) ∷ m) d =
      ground (arith, modify-Distinct k f m d.1, lookup-modify k i f m, e.beq_iff i k, e.beq_iff k i)

  pub map_entries-Distinct : (f : K → V → V) (m : Map K V) → Distinct m → Distinct (map_entries f m)
  unfolding map_entries
  map_entries-Distinct f [] d = tt
  map_entries-Distinct f ((i, w) ∷ m) d =
      ground (arith, map_entries-Distinct f m d.1, lookup-map_entries i f m)

  retain_absent :
      (j : K) (p : K → V → Bool) (m : Map K V) → lookup j m ≡ none → lookup j (retain p m) ≡ none
  unfolding lookup retain
  retain_absent j p [] h = refl
  retain_absent j p ((i, w) ∷ m) h = ground (arith, retain_absent j p m)

  pub lookup-retain :
      (j : K) (p : K → V → Bool) (m : Map K V)
      → Distinct m
      → lookup j (retain p m) ≡ kept_if (p j) (lookup j m)
  unfolding lookup retain
  lookup-retain j p [] d = refl
  lookup-retain j p ((i, w) ∷ m) d = ground (
    arith,
    e.beq_iff i j,
    lookup-retain j p m d.1,
    λ (q : i ≡ j). ap (λ z. lookup z (retain p m)) q,
    λ (q : i ≡ j). ap (λ z. p z w) q,
    retain_absent i p m d.0,
  )

  pub retain-Distinct : (p : K → V → Bool) (m : Map K V) → Distinct m → Distinct (retain p m)
  unfolding retain
  retain-Distinct p [] d = tt
  retain-Distinct p ((i, w) ∷ m) d =
      ground (arith, retain-Distinct p m d.1, retain_absent i p m d.0)

  pub elem-keys : (k : K) (m : Map K V) → elem k (keys m) ≡ contains_key k m
  unfolding lookup
  elem-keys k [] = refl
  elem-keys k ((i, w) ∷ m) = ground (arith, elem-keys k m)

  pub length-insert :
      (k : K) (v : V) (m : Map K V)
      → length (insert k v m) ≡ (if contains_key k m then length m else length m + 1)
  unfolding insert lookup
  length-insert k v [] = omega arith
  length-insert k v ((i, w) ∷ m) = ground (arith, length-insert k v m)

  pub remove_absent : (k : K) (m : Map K V) → lookup k m ≡ none → remove k m ≡ m
  unfolding remove lookup
  remove_absent k [] h = refl
  remove_absent k ((i, w) ∷ m) h = ground (arith, remove_absent k m)

  pub length-remove :
      (k : K) (m : Map K V)
      → Distinct m
      → length (remove k m) + (if contains_key k m then 1 else 0) ≡ length m
  unfolding remove lookup
  length-remove k [] d = omega arith
  length-remove k ((i, w) ∷ m) d = ground (
    arith,
    length-remove k m d.1,
    e.beq_iff i k,
    remove_absent i m d.0,
    λ (q : i ≡ k). ap (λ z. remove z m) q,
  )
