-- ===== src/Core/BlockingExecutor.antt =====
-- src/core/blocking_executor.rs, `map`: a callable over a list, in chunks that worker threads take.
-- The callable gives a result or an exception's message and keeps no state. Each chunk has a channel
-- of its own, so the threads' order does not show, and the outcomes are read by the chunk's index;
-- a worker that disappears is not modelled. The channel of the pool may be bounded: while `map` sends,
-- it holds the GIL, without which no worker ends an item. Numbers of items are far below 2 ^ 64.
mod Chunks
mod Tests
use hypern.Prelude.{
  ℕ, zero, suc, ◌+◌, ◌-◌, ◌*◌, ◌/◌, min, String, Bool, not, ◌||◌, List, [], ◌∷◌, ◌++◌, ltb, leb,
  eqb, if◌then◌else◌, length, is_empty, take, drop,
}

-- WorkResult
pub data WorkResult {ℓ} (A : Type ℓ) : Type ℓ where
  ok : A → WorkResult A
  err : String → WorkResult A

-- What `map` leads to: it returns or raises, or it waits for good in `send`.
pub data Mapped {ℓ} (A : Type ℓ) : Type ℓ where
  returned : WorkResult (List A) → Mapped A
  blocked : Mapped A

-- The executor at the time of the call: the depth of the channel, zero for an unbounded one, the items
-- that wait in it, and the workers that wait for an item.
pub record BlockingExecutor : Type 0 where
  pub running : Bool
  pub max_threads : ℕ
  pub queue_size : ℕ
  pub queued : ℕ
  pub idle : ℕ

-- How many items a bounded channel takes before any worker that needs the GIL goes on.
abbrev pub room : BlockingExecutor → ℕ
room e = (e.queue_size - e.queued) + e.idle

-- `end` is cut off at the list's end: the items from `start` on, at most `chunk`.
abbrev pub get_slice {ℓ} : {A : Type ℓ} → ℕ → ℕ → List A → List A
get_slice start stop xs = take (stop - start) (drop start xs)

-- The chosen size of a chunk; the source divides by the number of threads.
abbrev pub chunk_of : ℕ → ℕ → ℕ → ℕ
chunk_of max_threads chunk_size total =
    let target_chunks = max_threads * 4 in
    let chosen =
      if ltb 0 chunk_size then chunk_size else (total + target_chunks - 1) / target_chunks in
    if ltb chosen 1 then 1 else chosen

-- The loop that sends the chunks; the first argument bounds its rounds.
unfoldable pub chunks_from {ℓ} : {A : Type ℓ} → ℕ → ℕ → ℕ → List A → List (List A)
chunks_from zero chunk start items = []
chunks_from (suc fuel) chunk start items =
    let stop = min (start + chunk) (length items) in
    let rest = chunks_from fuel chunk stop items in
    if ltb start (length items) then get_slice start stop items ∷ rest else []

-- The outcomes of two pieces in their order, up to the first error.
abbrev pub joined {ℓ} :
    {A : Type ℓ} → WorkResult (List A) → WorkResult (List A) → WorkResult (List A)
joined (err message) r = err message
joined (ok ys) (err message) = err message
joined (ok ys) (ok zs) = ok (ys ++ zs)

module _ {ℓ κ} {A : Type ℓ} {B : Type κ} (callable : A → WorkResult B) where
  -- What a worker answers to a chunk, `[fn(item) for item in items]`.
  unfoldable pub run_chunk : List A → WorkResult (List B)
  run_chunk [] = ok []
  run_chunk (x ∷ xs) = elim (callable x) [
    | err message ↦ err message
    | ok y ↦ joined (ok (y ∷ [])) (run_chunk xs)
  ]

  -- The results of the chunks flattened.
  unfoldable pub collect : List (List A) → WorkResult (List B)
  collect [] = ok []
  collect (chunk ∷ chunks) = joined (run_chunk chunk) (collect chunks)

  -- `map` holds the GIL while it sends. Where the channel is bounded and the chunks are more than it
  -- and the idle workers take, a send never returns.
  unfoldable pub map_chunked : BlockingExecutor → ℕ → List A → Mapped B
  map_chunked e chunk_size items =
      let total = length items in
      let chunks = chunks_from total (chunk_of e.max_threads chunk_size total) 0 items in
      if not e.running
      then returned (err "BlockingExecutor is shut down")
      else if is_empty items
      then returned (ok [])
      else if eqb e.queue_size 0 || leb (length chunks) (room e)
      then returned (collect chunks)
      else blocked
