-- ===== src/Core/BlockingExecutor/Tests.antt =====
-- Tests of the executor's `map`, and the theorem at a concrete input.
use hypern.Core.BlockingExecutor.{
  WorkResult, BlockingExecutor, returned, blocked, ok, err, chunks_from, run_chunk, collect,
  map_chunked,
}
use hypern.Core.BlockingExecutor.Chunks.{map_chunked_lem}
use hypern.Prelude.{ℕ, ◌*◌, ◌≡◌, refl, inr, true, List, [], ◌∷◌, arith, eqb, if◌then◌else◌}

executor : Unit {0}
unfolding chunks_from run_chunk collect map_chunked
executor = tt

-- Fails on seven.
abbrev double : ℕ → WorkResult ℕ
double n = if eqb n 7 then err "seven" else ok (n * 2)

abbrev numbers : List ℕ
numbers = 1 ∷ 2 ∷ 3 ∷ 4 ∷ 5 ∷ []

chunks_test : chunks_from 5 2 0 numbers ≡ (1 ∷ 2 ∷ []) ∷ (3 ∷ 4 ∷ []) ∷ (5 ∷ []) ∷ []
unfolding executor
chunks_test = refl

abbrev executor_of : ℕ → BlockingExecutor
executor_of queue_size = record {
  running = true;
  max_threads = 2;
  queue_size = queue_size;
  queued = 0;
  idle = 2;
}

error_test : map_chunked double (executor_of 0) 0 (1 ∷ 7 ∷ 3 ∷ []) ≡ returned (err "seven")
unfolding executor
error_test = refl

-- Five chunks of one item, where one waits in the channel and two are with the workers.
blocked_test : map_chunked double (executor_of 1) 1 numbers ≡ blocked
unfolding executor
blocked_test = refl

map_chunked_lem_example :
    map_chunked double (executor_of 1) 2 (1 ∷ 2 ∷ 3 ∷ []) ≡ returned (ok (2 ∷ 4 ∷ 6 ∷ []))
unfolding executor
map_chunked_lem_example =
    map_chunked_lem double (executor_of 1) 2 (1 ∷ 2 ∷ 3 ∷ []) refl (inr (omega arith))
