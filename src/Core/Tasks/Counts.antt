-- ===== src/Core/Tasks/Counts.antt =====
-- Where a task's id stands: how often among the callers, in the queue and with the workers.
use hypern.Core.Tasks.{
  BackgroundTask, Worker, idle, receiving, stopped, delaying, executing, TaskExecutor, pick,
  get_worker, set_worker,
}
use hypern.Prelude.{
  ℕ, zero, suc, ◌+◌, ◌≤◌, String, ◌≡◌, refl, ◌≢◌, inl, inr, some, List, [], ◌∷◌, ◌++◌, arith,
  if◌then◌else◌, Option-cases, ◌==◌, string_eq, nat_eq,
}

-- One for the id's task, else zero.
abbrev pub hit : String → BackgroundTask → ℕ
hit id task = if task.id == id then 1 else 0

abbrev pub count : String → List BackgroundTask → ℕ
count id [] = 0
count id (t ∷ ts) = hit id t + count id ts

abbrev pub held : String → Worker → ℕ
held id idle = 0
held id receiving = 0
held id stopped = 0
held id (delaying t) = hit id t
held id (executing t) = hit id t

abbrev pub count_held : String → List Worker → ℕ
count_held id [] = 0
count_held id (w ∷ ws) = held id w + count_held id ws

abbrev pub count_all : String → TaskExecutor → ℕ
count_all id e = count id e.sending + count id e.queue + count_held id e.workers

pub count-append :
    (id : String) (ts us : List BackgroundTask) → count id (ts ++ us) ≡ count id ts + count id us
count-append id [] us = omega arith
count-append id (t ∷ ts) us = omega (arith, count-append id ts us)

pub count-pick :
    (id : String) (n : ℕ) (ts : List BackgroundTask) (t : BackgroundTask) (us : List BackgroundTask)
    → pick n ts ≡ some (t, us)
    → count id ts ≡ hit id t + count id us
unfolding pick
count-pick id n [] t us h = ground (arith, h)
count-pick id zero (x ∷ xs) t us h = ground (arith, h)
count-pick id (suc n) (x ∷ xs) t us h = elim (Option-cases (pick n xs)) [
  | inl e ↦ ground (arith, e, h)
  | inr ((y, ys), e) ↦ ground (arith, e, h, count-pick id n xs y ys e)
]

-- A worker's change changes its own share.
pub count_held-set_worker :
    (id : String) (n : ℕ) (v : Worker) (ws : List Worker)
    → get_worker n ws ≢ stopped
    → count_held id (set_worker n v ws) + held id (get_worker n ws) ≡ count_held id ws + held id v
count_held-set_worker id n v [] h = absurd (h refl)
count_held-set_worker id zero v (w ∷ ws) h = omega arith
count_held-set_worker id (suc n) v (w ∷ ws) h = omega (arith, count_held-set_worker id n v ws h)

pub held-get_worker-le :
    (id : String) (n : ℕ) (ws : List Worker) → held id (get_worker n ws) ≤ count_held id ws
held-get_worker-le id n [] = omega arith
held-get_worker-le id zero (w ∷ ws) = omega arith
held-get_worker-le id (suc n) (w ∷ ws) = omega (arith, held-get_worker-le id n ws)
