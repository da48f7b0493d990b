-- ===== src/Memory/Pool.antt =====
-- src/memory/pool.rs, `ObjectPool`, and the buffers of `RequestPool` and `ResponsePool`, which are lists
-- that a pool hands out cleared. `create_fn` is a parameter that gives an equal object each time. The
-- vector's end is the list's head. The subtraction in `warm` is of a usize; the bound of the pool
-- keeps it from wrapping.
mod Bounds
mod Tests
use hypern.Prelude.{ℕ, zero, suc, ◌-◌, min, List, [], ◌∷◌, ltb, if◌then◌else◌, length}

module _ {ℓ} {T : Type ℓ} where
  abbrev pub created : ℕ → T → List T → List T
  created zero object pool = pool
  created (suc n) object pool = object ∷ created n object pool

pub record ObjectPool {ℓ} (T : Type ℓ) : Type ℓ where
  pub pool : List T
  pub max_size : ℕ
  pub create_fn : Unit {0} → T

module _ {ℓ} {T : Type ℓ} where
  abbrev pub new : ℕ → (Unit {0} → T) → ObjectPool T
  new max_size create_fn = record { pool = []; max_size = max_size; create_fn = create_fn }

  unfoldable pub get : ObjectPool T → ObjectPool T × T
  get p = elim p.pool [
    | [] ↦ (p, p.create_fn tt)
    | object ∷ rest ↦ (record p { pool = rest }, object)
  ]

  unfoldable pub put : T → ObjectPool T → ObjectPool T
  put object p = if ltb (length p.pool) p.max_size then record p { pool = object ∷ p.pool } else p

  abbrev pub size : ObjectPool T → ℕ
  size p = length p.pool

  unfoldable pub warm : ℕ → ObjectPool T → ObjectPool T
  warm count p = record p {
    pool = created (min count (p.max_size - length p.pool)) (p.create_fn tt) p.pool;
  }

module _ {ℓ} {T : Type ℓ} where
  -- RequestPool::get_buffer: what a pooled buffer held is cleared.
  abbrev pub get_buffer : ObjectPool (List T) → ObjectPool (List T) × List T
  get_buffer p = let (p', buffer) = get p in (p', [])

  abbrev pub return_buffer : List T → ObjectPool (List T) → ObjectPool (List T)
  return_buffer buffer p = put buffer p
