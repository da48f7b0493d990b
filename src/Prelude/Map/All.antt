-- ===== src/Prelude/Map/All.antt =====
-- A predicate of every value of a map, and its lemmas for the map's operations.
use mathlib.Core.Path.{◌≡◌, subst}
use mathlib.Core.Logic.{inl, inr}
use mathlib.Core.Option.{some}
use mathlib.Core.List.{[], ◌∷◌}
use native.Mathlib.Omega.{arith}
use hypern.Prelude.Tests.{Eq, ◌==◌, Bool-cases}
use hypern.Prelude.Map.{Map, lookup, insert, remove, modify, map_entries}

module _ {ℓ κ μ} {K : Type ℓ} {V : Type κ} where
  abbrev pub AllValues : (V → Type μ) → Map K V → Type μ
  AllValues P [] = Unit
  AllValues P ((k, v) ∷ m) = P v × AllValues P m

module _ {ℓ κ μ} {K : Type ℓ} {V : Type κ} ⦃e : Eq K⦄ (P : V → Type μ) where
  pub AllValues-lookup : (k : K) (m : Map K V) {v : V} → AllValues P m → lookup k m ≡ some v → P v
  unfolding lookup
  AllValues-lookup k [] a h = ground arith
  AllValues-lookup k ((i, w) ∷ m) {v} a h = elim (Bool-cases (i == k)) [
    | inl hit ↦ subst P (ground arith) a.0
    | inr miss ↦ AllValues-lookup k m a.1 (ground arith)
  ]

  pub insert-AllValues :
      (k : K) (v : V) (m : Map K V) → P v → AllValues P m → AllValues P (insert k v m)
  unfolding insert
  insert-AllValues k v [] h a = (h, tt)
  insert-AllValues k v ((i, w) ∷ m) h a = ground (arith, insert-AllValues k v m h a.1)

  pub remove-AllValues : (k : K) (m : Map K V) → AllValues P m → AllValues P (remove k m)
  unfolding remove
  remove-AllValues k [] a = tt
  remove-AllValues k ((i, w) ∷ m) a = ground (arith, remove-AllValues k m a.1)

  pub modify-AllValues :
      (k : K) (f : V → V) (m : Map K V)
      → ((v : V) → P v → P (f v))
      → AllValues P m
      → AllValues P (modify k f m)
  unfolding modify
  modify-AllValues k f [] h a = tt
  modify-AllValues k f ((i, w) ∷ m) h a = ground (arith, h w a.0, modify-AllValues k f m h a.1)

  pub map_entries-AllValues :
      (f : K → V → V) (m : Map K V)
      → ((k : K) (v : V) → P v → P (f k v))
      → AllValues P m
      → AllValues P (map_entries f m)
  unfolding map_entries
  map_entries-AllValues f [] h a = tt
  map_entries-AllValues f ((i, w) ∷ m) h a = (h i w a.0, map_entries-AllValues f m h a.1)
