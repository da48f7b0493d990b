-- ===== src/Core/Tasks/Tests.antt =====
-- Tests of the task executor, and the theorems at concrete inputs.
use hypern.Prelude.Map
use hypern.Prelude.Text.{codes}
use hypern.Core.Tasks.{
  BackgroundTask, TaskResult, TaskExecutor, Step, registers, sends, checks, receives, cancels,
  starts, finishes, shuts_down, cleans, ok, pending, running, completed, cancelled, pick, register,
  is_disconnected, send, cancel, cleanup, check, receive_from, receive, start, finish, step, run,
  new, get_result, pending_count,
}
use hypern.Core.Tasks.Outcomes.{get_result-run_done}
use hypern.Core.Tasks.Refusing.{refused}
use hypern.Core.Tasks.Refused.{get_result-run_cancelled}
use hypern.Core.Tasks.Cancelling.{start-cancel}
use hypern.Prelude.{
  ℕ, zero, suc, String, ◌≡◌, refl, sym, ap, ◌∙◌, ◌⊎◌, true, none, some, List, [], ◌∷◌, arith,
  length, string_eq, nat_eq,
}

executor : Unit {0}
unfolding pick register is_disconnected send cancel cleanup check receive_from receive start finish
    step run Map.lookup Map.insert Map.modify Map.retain
executor = tt

-- The counter's number of strokes.
abbrev strokes : ℕ → ℕ → String
strokes t zero = ""
strokes t (suc n) = String.◌∷◌ "|" (strokes t n)

length-strokes : (t n : ℕ) → length (codes (strokes t n)) ≡ n
length-strokes t zero = refl
length-strokes t (suc n) = omega (arith, length-strokes t n)

strokes-differ : (t t' k k' : ℕ) → strokes t k ≡ strokes t' k' → k ≡ k'
strokes-differ t t' k k' h =
    sym (length-strokes t k) ∙ ap (λ s. length (codes s)) h ∙ length-strokes t' k'

abbrev history : List Step
history =
    registers 0 0 none
    ∷ sends 0
    ∷ checks 0
    ∷ receives 0
    ∷ starts 0 1
    ∷ finishes 0 2 (ok "done")
    ∷ []

abbrev finished : TaskResult
finished = record {
  task_id = "";
  status = completed;
  result = some "done";
  error = none;
  started_at = some 1;
  completed_at = some 2;
}

history_test : get_result "" (run strokes history (new 1 4)) ≡ some finished
unfolding executor
history_test = refl

get_result-run_done_example :
    (get_result "" (run strokes (cancels "" ∷ checks 0 ∷ []) (run strokes history (new 1 4)))
      ≡ some finished)
    ⊎ (get_result "" (run strokes (cancels "" ∷ checks 0 ∷ []) (run strokes history (new 1 4)))
        ≡ none)
unfolding executor
get_result-run_done_example =
    get_result-run_done strokes strokes-differ "" 1 4 history (cancels "" ∷ checks 0 ∷ []) finished
      refl refl

abbrev task : BackgroundTask
task = record { id = ""; created_at = 0; delay = some 5 }

abbrev waiting_entry : TaskResult
waiting_entry = record {
  task_id = "";
  status = pending;
  result = none;
  error = none;
  started_at = none;
  completed_at = none;
}

-- The executor whose only worker waits out the delay of its task.
abbrev delayed : TaskExecutor
delayed = run strokes (registers 0 0 (some 5) ∷ sends 0 ∷ checks 0 ∷ receives 0 ∷ []) (new 1 4)

start-cancel_test :
    ((cancel "" delayed).0 ≡ true)
    × (get_result "" (start 0 6 (cancel "" delayed).1)
        ≡ some (record waiting_entry { status = running; started_at = some 6 }))
unfolding executor
start-cancel_test = start-cancel 0 6 task waiting_entry delayed refl refl refl refl

-- A task that is cancelled in the queue is dropped, and its entry is never cleaned up.
dropped_test :
    Map.lookup ""
      (run strokes
        (registers 0 0 none ∷ cancels "" ∷ sends 0 ∷ checks 0 ∷ receives 0 ∷ cleans 100 1 ∷ [])
        (new 1 4)).results
    ≡ some (record waiting_entry { status = cancelled })
unfolding executor
dropped_test = refl

-- After a shutdown a task can stay pending with nobody to take it, and `submit` leaves its entry.
stranded_test :
    (pending_count
        (run strokes (registers 0 0 none ∷ sends 0 ∷ shuts_down ∷ checks 0 ∷ []) (new 1 4))
      ≡ 1)
    × (pending_count
          (run strokes (shuts_down ∷ checks 0 ∷ registers 0 0 none ∷ sends 0 ∷ []) (new 1 4))
        ≡ 1)
unfolding executor
stranded_test = (refl, refl)

-- The task is queued, cancelled, received by the worker, and old entries are cleaned up.
get_result-run_cancelled_example :
    let e = run strokes (registers 0 0 none ∷ sends 0 ∷ []) (new 1 4) in
    ((cancel "" e).0 ≡ true)
    × (get_result ""
          (run strokes (checks 0 ∷ receives 0 ∷ starts 0 9 ∷ cleans 99 1 ∷ []) (cancel "" e).1)
        ≡ some (refused ""))
unfolding executor
get_result-run_cancelled_example =
    get_result-run_cancelled strokes strokes-differ "" 1 4 (registers 0 0 none ∷ sends 0 ∷ [])
      (checks 0 ∷ receives 0 ∷ starts 0 9 ∷ cleans 99 1 ∷ []) refl refl
