-- ===== src/Memory/Pool/Tests.antt =====
-- Tests of the pool.
use hypern.Memory.Pool.{ObjectPool, new, get, put, warm, size, get_buffer, return_buffer}
use hypern.Prelude.{ℕ, ◌≡◌, refl, List, [], ◌∷◌}

pool : Unit {0}
unfolding get put warm
pool = tt

abbrev buffers : ObjectPool (List ℕ)
buffers = new 2 (λ _. [])

-- A returned buffer is handed out again, cleared.
reuse_test :
    (size (return_buffer (7 ∷ []) buffers) ≡ 1)
    × ((get_buffer (return_buffer (7 ∷ []) buffers)).1 ≡ [])
    × (size (get_buffer (return_buffer (7 ∷ []) buffers)).0 ≡ 0)
unfolding pool
reuse_test = (refl, refl, refl)

full_test : size (return_buffer [] (warm 5 buffers)) ≡ 2
unfolding pool
full_test = refl
