-- ===== src/Core/Tasks/Cancelling.antt =====
-- Cancelling a task that a worker has taken from the queue already.
use mathlib.Core.Option
use hypern.Prelude.Map
use hypern.Core.Tasks.{
  TaskResult, BackgroundTask, pending, running, delaying, due, TaskExecutor, cancel_result,
  start_result, get_worker, get_result, cancel, start,
}
use hypern.Prelude.{ℕ, ◌≡◌, refl, ap, ◌∙◌, true, some, leb, string_eq, nat_eq}

-- `start` on a worker whose delay is over.
pub start_lem :
    (n now : ℕ) (t : BackgroundTask) (e : TaskExecutor)
    → get_worker n e.workers ≡ delaying t
    → leb (due t) now ≡ true
    → get_result t.id (start n now e) ≡ Option.map (start_result now) (get_result t.id e)
unfolding start
start_lem n now t e q d =
    rw (q, d, start)
      (Map.lookup-modify t.id t.id (start_result now) e.results
        ∙ rw ((string_eq.beq_iff t.id t.id).1 refl) refl)

-- A pending task that waits out its delay with a worker is not saved by `cancel`, although `cancel`
-- answers true: once the delay is over the worker sets the entry to running and calls the handler.
pub start-cancel :
    (n now : ℕ) (t : BackgroundTask) (r : TaskResult) (e : TaskExecutor)
    → get_worker n e.workers ≡ delaying t
    → get_result t.id e ≡ some r
    → r.status ≡ pending
    → leb (due t) now ≡ true
    → ((cancel t.id e).0 ≡ true)
      × (get_result t.id (start n now (cancel t.id e).1)
          ≡ some (record r { status = running; started_at = some now }))
unfolding cancel
start-cancel n now t r e q h p d =
    let own = (string_eq.beq_iff t.id t.id).1 refl in
    let entry : get_result t.id (cancel t.id e).1 ≡ some (cancel_result r) =
      Map.lookup-modify t.id t.id cancel_result e.results ∙ rw (own, h) refl in
    (
      rw (h, cancel, p) refl,
      start_lem n now t (cancel t.id e).1 q d
          ∙ ap (Option.map (start_result now)) entry
          ∙ rw p refl,
    )
