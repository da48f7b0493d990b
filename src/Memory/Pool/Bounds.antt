-- ===== src/Memory/Pool/Bounds.antt =====
-- The size of a pool over any calls.
use hypern.Memory.Pool.{ObjectPool, created, new, get, put, size, warm}
use hypern.Prelude.{
  ℕ, zero, suc, ◌+◌, ◌-◌, ◌≤◌, min, ◌≡◌, refl, ap, inl, inr, List, [], ◌∷◌, arith, ltb, Bool-cases,
  length,
}

pub data Call {ℓ} (T : Type ℓ) : Type ℓ where
  gets : Call T
  puts : T → Call T
  warms : ℕ → Call T

module _ {ℓ} {T : Type ℓ} where
  unfoldable pub step : Call T → ObjectPool T → ObjectPool T
  step gets p = (get p).0
  step (puts object) p = put object p
  step (warms count) p = warm count p

  unfoldable pub run : List (Call T) → ObjectPool T → ObjectPool T
  run [] p = p
  run (c ∷ cs) p = run cs (step c p)

  length-created :
      (n : ℕ) (object : T) (pool : List T) → length (created n object pool) ≡ n + length pool
  length-created zero object pool = omega arith
  length-created (suc n) object pool = omega (arith, length-created n object pool)

  -- Within its largest size, which stays.
  IsBounded : ℕ → ObjectPool T → Type 0
  IsBounded limit p = (length p.pool ≤ limit) × (p.max_size ≡ limit)

  step-IsBounded :
      (limit : ℕ) (c : Call T) (p : ObjectPool T) → IsBounded limit p → IsBounded limit (step c p)
  unfolding step get put warm IsBounded
  step-IsBounded limit gets p (le, m) = go p.pool refl
    where
      go : (xs : List T) → p.pool ≡ xs → IsBounded limit (get p).0
      go [] q = rw (q, get) (le, m)
      go (x ∷ xs) q = rw (q, get) (omega (arith, le, ap length q), m)
  step-IsBounded limit (puts object) p (le, m) =
      elim (Bool-cases (ltb (length p.pool) p.max_size)) [
        | inl e ↦ rw (e, put) (ground (arith, e, m), m)
        | inr e ↦ rw (e, put) (le, m)
      ]
  step-IsBounded limit (warms count) p (le, m) = (
    omega (
      arith,
      length-created (min count (p.max_size - length p.pool)) (p.create_fn tt) p.pool,
      le,
      m,
    ),
    m,
  )

  run-IsBounded :
      (limit : ℕ) (cs : List (Call T)) (p : ObjectPool T)
      → IsBounded limit p
      → IsBounded limit (run cs p)
  unfolding run
  run-IsBounded limit [] p h = h
  run-IsBounded limit (c ∷ cs) p h = run-IsBounded limit cs (step c p) (step-IsBounded limit c p h)

  -- A pool never holds more objects than its largest size, after any calls on a new one.
  pub size-run :
      (max_size : ℕ) (create_fn : Unit {0} → T) (cs : List (Call T))
      → size (run cs (new max_size create_fn)) ≤ max_size
  unfolding IsBounded
  size-run max_size create_fn cs =
      (run-IsBounded max_size cs (new max_size create_fn) (omega arith, refl)).0
