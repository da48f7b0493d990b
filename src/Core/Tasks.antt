-- ===== src/Core/Tasks.antt =====
-- src/core/tasks.rs, `TaskExecutor` and its worker threads. Each step that a thread takes without
-- another seeing it half done is one function, and `step` picks among them: `register` and `send`
-- are the two steps of `submit`; `check`, `receive`, `start` and `finish` are those of `task_worker`.
-- A Python handler's answer is an argument of `finish`. Times are natural numbers of one unit;
-- `completed_at > now - max_age` is written with `+`. `format_id` is the printing of an id from a
-- time and the counter, which does not wrap here: it is an AtomicU64.
mod Counts
mod Soundness
mod Entries
mod Outcomes
mod Cancelling
mod Refusing
mod Refused
mod Tests
use hypern.Prelude.Map
use hypern.Prelude.Map.{Map}
use hypern.Prelude.{
  ℕ, zero, suc, ◌+◌, String, Bool, true, false, ◌&&◌, Option, none, some, List, [], ◌∷◌, ◌++◌, ltb,
  leb, if◌then◌else◌, length, keep, string_eq, nat_eq,
}

pub data TaskStatus : Type 0 where
  pending running completed failed cancelled : TaskStatus

pub record TaskResult : Type 0 where
  pub task_id : String
  pub status : TaskStatus
  pub result : Option String
  pub error : Option String
  pub started_at : Option ℕ
  pub completed_at : Option ℕ

abbrev pub is_success : TaskResult → Bool
is_success r = elim r.status [ completed ↦ true | _ ↦ false ]

abbrev pub is_failed : TaskResult → Bool
is_failed r = elim r.status [ failed ↦ true | _ ↦ false ]

abbrev pub is_pending : TaskResult → Bool
is_pending r = elim r.status [ pending ↦ true | running ↦ true | _ ↦ false ]

pub record BackgroundTask : Type 0 where
  pub id : String
  pub created_at : ℕ
  pub delay : Option ℕ

-- Where a worker's loop stands: before its test, at `recv_timeout`, in the delay of a task, in its handler, or after
-- the loop.
pub data Worker : Type 0 where
  idle receiving stopped : Worker
  delaying executing : BackgroundTask → Worker

-- `sending` are the tasks of the calls of `submit` that have not returned from `send`.
pub record TaskExecutor : Type 0 where
  pub queue_size : ℕ
  pub queue : List BackgroundTask
  pub sending : List BackgroundTask
  pub workers : List Worker
  pub results : Map String TaskResult
  pub running : Bool
  pub counter : ℕ

abbrev pub repeat {ℓ} : {A : Type ℓ} → ℕ → A → List A
repeat zero a = []
repeat (suc n) a = a ∷ repeat n a

-- TaskExecutor::new
abbrev pub new : ℕ → ℕ → TaskExecutor
new num_workers queue_size = record {
  queue_size = queue_size;
  queue = [];
  sending = [];
  workers = repeat num_workers idle;
  results = [];
  running = true;
  counter = 0;
}

abbrev pub new_result : String → TaskResult
new_result task_id = record {
  task_id = task_id;
  status = pending;
  result = none;
  error = none;
  started_at = none;
  completed_at = none;
}

-- The element at a place, and the others.
unfoldable pub pick {ℓ} : {A : Type ℓ} → ℕ → List A → Option (A × List A)
pick n [] = none
pick zero (x ∷ xs) = some (x, xs)
pick (suc n) (x ∷ xs) = elim (pick n xs) [ none ↦ none | some (y, ys) ↦ some (y, x ∷ ys) ]

-- `submit` up to `send`: the id is generated, the result is stored as pending.
unfoldable pub register : (ℕ → ℕ → String) → ℕ → ℕ → Option ℕ → TaskExecutor → TaskExecutor
register format_id timestamp now delay_ms e =
    let task_id = format_id timestamp e.counter in
    record e {
      counter = suc e.counter;
      results = Map.insert task_id (new_result task_id) e.results;
      sending = record { id = task_id; created_at = now; delay = delay_ms } ∷ e.sending;
    }

abbrev pub is_stopped : Worker → Bool
is_stopped stopped = true
is_stopped _ = false

-- No worker holds a receiver any more.
unfoldable pub is_disconnected : List Worker → Bool
is_disconnected [] = true
is_disconnected (w ∷ ws) = is_stopped w && is_disconnected ws

-- `send` of the n-th call: an error without receivers, blocked on a full queue. A queue of size zero,
-- where crossbeam hands a task over to a worker that waits, takes nothing here.
unfoldable pub send : ℕ → TaskExecutor → TaskExecutor
send n e = elim (pick n e.sending) [
  | none ↦ e
  | some (task, others) ↦
      if is_disconnected e.workers
      then record e { sending = others }
      else if ltb (length e.queue) e.queue_size
      then record e { sending = others; queue = e.queue ++ task ∷ [] }
      else e
]

abbrev pub get_result : String → TaskExecutor → Option TaskResult
get_result task_id e = Map.lookup task_id e.results

abbrev pub is_done : TaskStatus → Bool
is_done completed = true
is_done failed = true
is_done _ = false

abbrev pub is_complete : String → TaskExecutor → Bool
is_complete task_id e = elim (get_result task_id e) [
  | none ↦ false
  | some r ↦ elim r.status [ completed ↦ true | failed ↦ true | cancelled ↦ true | _ ↦ false ]
]

abbrev pub cancel_result : TaskResult → TaskResult
cancel_result r = elim r.status [ pending ↦ record r { status = cancelled } | _ ↦ r ]

abbrev pub is_waiting : TaskResult → Bool
is_waiting r = elim r.status [ pending ↦ true | _ ↦ false ]

unfoldable pub cancel : String → TaskExecutor → Bool × TaskExecutor
cancel task_id e = (
  elim (get_result task_id e) [ none ↦ false | some r ↦ is_waiting r ],
  record e { results = Map.modify task_id cancel_result e.results },
)

abbrev pub pending_count : TaskExecutor → ℕ
pending_count e = length (keep is_pending (Map.values e.results))

abbrev pub completed_count : TaskExecutor → ℕ
completed_count e = length (keep is_success (Map.values e.results))

-- Completed later than the threshold, or not at all.
abbrev pub is_recent : ℕ → ℕ → TaskResult → Bool
is_recent now max_age v = elim v.completed_at [
  | none ↦ true
  | some completed_at ↦ ltb now (completed_at + max_age)
]

unfoldable pub cleanup : ℕ → ℕ → TaskExecutor → TaskExecutor
cleanup now max_age e = record e { results = Map.retain (λ _ v. is_recent now max_age v) e.results }

abbrev pub shutdown : TaskExecutor → TaskExecutor
shutdown e = record e { running = false }

abbrev pub get_worker : ℕ → List Worker → Worker
get_worker n [] = stopped
get_worker zero (w ∷ ws) = w
get_worker (suc n) (w ∷ ws) = get_worker n ws

abbrev pub set_worker : ℕ → Worker → List Worker → List Worker
set_worker n v [] = []
set_worker zero v (w ∷ ws) = v ∷ ws
set_worker (suc n) v (w ∷ ws) = w ∷ set_worker n v ws

abbrev pub with_worker : ℕ → Worker → TaskExecutor → TaskExecutor
with_worker n w e = record e { workers = set_worker n w e.workers }

-- The loop's test.
unfoldable pub check : ℕ → TaskExecutor → TaskExecutor
check n e = elim (get_worker n e.workers) [
  | idle ↦ if e.running then with_worker n receiving e else with_worker n stopped e
  | _ ↦ e
]

abbrev pub is_cancelled : Option TaskResult → Bool
is_cancelled none = false
is_cancelled (some r) = elim r.status [ cancelled ↦ true | _ ↦ false ]

-- What `recv_timeout` finds in the queue, and the look for a cancellation; nothing received in
-- time is the next round.
unfoldable pub receive_from : ℕ → List BackgroundTask → TaskExecutor → TaskExecutor
receive_from n [] e = with_worker n idle e
receive_from n (task ∷ queue) e =
    if is_cancelled (get_result task.id e)
    then record e { queue = queue; workers = set_worker n idle e.workers }
    else record e { queue = queue; workers = set_worker n (delaying task) e.workers }

unfoldable pub receive : ℕ → TaskExecutor → TaskExecutor
receive n e = elim (get_worker n e.workers) [ receiving ↦ receive_from n e.queue e | _ ↦ e ]

-- The end of the sleep, if there is one.
abbrev pub due : BackgroundTask → ℕ
due task = elim task.delay [ none ↦ task.created_at | some d ↦ task.created_at + d ]

abbrev pub start_result : ℕ → TaskResult → TaskResult
start_result now r = record r { status = running; started_at = some now }

-- The delay is over: the result is running, and the handler is called.
unfoldable pub start : ℕ → ℕ → TaskExecutor → TaskExecutor
start n now e = elim (get_worker n e.workers) [
  | delaying task ↦
      if leb (due task) now
      then record e {
        workers = set_worker n (executing task) e.workers;
        results = Map.modify task.id (start_result now) e.results;
      }
      else e
  | _ ↦ e
]

-- What a handler returns: its result or its error as a text.
pub data Outcome : Type 0 where
  ok err : String → Outcome

abbrev pub finish_result : ℕ → Outcome → TaskResult → TaskResult
finish_result now (ok res) r = record r {
  status = completed;
  result = some res;
  completed_at = some now;
}
finish_result now (err e) r = record r { status = failed; error = some e; completed_at = some now }

unfoldable pub finish : ℕ → ℕ → Outcome → TaskExecutor → TaskExecutor
finish n now outcome e = elim (get_worker n e.workers) [
  | executing task ↦ record e {
    workers = set_worker n idle e.workers;
    results = Map.modify task.id (finish_result now outcome) e.results;
  }
  | _ ↦ e
]

-- A step of any thread.
pub data Step : Type 0 where
  registers : ℕ → ℕ → Option ℕ → Step
  sends checks receives : ℕ → Step
  cancels : String → Step
  cleans starts : ℕ → ℕ → Step
  shuts_down : Step
  finishes : ℕ → ℕ → Outcome → Step

module _ (format_id : ℕ → ℕ → String) where
  unfoldable pub step : Step → TaskExecutor → TaskExecutor
  step (registers timestamp now delay_ms) e = register format_id timestamp now delay_ms e
  step (sends n) e = send n e
  step (checks n) e = check n e
  step (receives n) e = receive n e
  step (cancels task_id) e = (cancel task_id e).1
  step (cleans now max_age) e = cleanup now max_age e
  step (starts n now) e = start n now e
  step shuts_down e = shutdown e
  step (finishes n now outcome) e = finish n now outcome e

  unfoldable pub run : List Step → TaskExecutor → TaskExecutor
  run [] e = e
  run (s ∷ ss) e = run ss (step s e)
