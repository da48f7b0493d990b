-- ===== src/Core/Worker/Draining.antt =====
-- Requests that overlap, and the drain. Between the test of a request and the counting of it other
-- threads can come, and a handler's future that is dropped or panics never counts down.
use hypern.Core.Reload
use hypern.Core.Reload.{
  ReloadManager, ReloadConfig, Waiter, waiting, returned, on_request_start, on_request_complete,
  start_drain, notify_waiters,
}
use hypern.Core.Worker.{HttpResponse, refused}
use hypern.Prelude.{
  ℕ, ◌+◌, ◌-◌, ◌^◌, ◌≤◌, ◌<◌, ◌≡◌, refl, sym, ap, ◌∙◌, true, false, Option, none, some, List, [],
  ◌∷◌, arith, eqb, if◌then◌else◌, if-both, if-split, length,
}

-- A request arrives and is tested, a request that passed the test is counted, an open request is
-- answered or its future is lost, or the drain begins.
pub data Event : Type 0 where
  arrives counts completes loses drains : Event

-- The manager; the requests that passed the test and are not counted yet; those in
-- `handle_request_inner`; and those whose future was dropped or panicked there.
pub record Worker : Type 0 where
  pub manager : ReloadManager
  pub tested : ℕ
  pub open_requests : ℕ
  pub lost : ℕ

abbrev tested_one : Option HttpResponse → Worker → Worker
tested_one none w = record w { tested = w.tested + 1 }
tested_one (some refusal) w = w

unfoldable pub step : Event → Worker → Worker
step arrives w = tested_one (refused w.manager) w
step counts w = if eqb w.tested 0 then w else record w {
  manager = on_request_start w.manager;
  tested = w.tested - 1;
  open_requests = w.open_requests + 1;
}
step completes w =
    if eqb w.open_requests 0
    then w
    else record w { manager = on_request_complete w.manager; open_requests = w.open_requests - 1 }
step loses w =
    if eqb w.open_requests 0
    then w
    else record w { open_requests = w.open_requests - 1; lost = w.lost + 1 }
step drains w = record w { manager = start_drain w.manager }

unfoldable pub run : List Event → Worker → Worker
run [] w = w
run (e ∷ es) w = run es (step e w)

abbrev pub start : ReloadConfig → Worker
start config = record { manager = Reload.new config; tested = 0; open_requests = 0; lost = 0 }

-- The counter is the number of open and lost requests, which has grown by less than the calls.
abbrev IsCounted : ℕ → Worker → Type 0
IsCounted n w =
    (w.manager.health.in_flight ≡ w.open_requests + w.lost) × (w.open_requests + w.lost ≤ n)

step-IsCounted :
    (e : Event) (w : Worker) (n : ℕ) → n + 1 < 2 ^ 64 → IsCounted n w → IsCounted (n + 1) (step e w)
unfolding step refused on_request_start on_request_complete start_drain
step-IsCounted arrives w n small (same, le) =
    if-both (λ (r : Option HttpResponse). IsCounted (n + 1) (tested_one r w)) w.manager.is_draining
      (same, omega (arith, le)) (same, omega (arith, le))
step-IsCounted counts w n small (same, le) =
    if-both (IsCounted (n + 1)) (eqb w.tested 0) (same, omega (arith, le))
      (omega (arith, same, le, small), omega (arith, le))
step-IsCounted completes w n small (same, le) =
    if-split (IsCounted (n + 1)) (eqb w.open_requests 0) (λ e. (same, omega (arith, le)))
      (λ e.
        let some_open : 0 < w.open_requests = ground (arith, e) in
        (omega (arith, same, le, small, some_open), omega (arith, le)))
step-IsCounted loses w n small (same, le) =
    if-split (IsCounted (n + 1)) (eqb w.open_requests 0) (λ e. (same, omega (arith, le)))
      (λ e.
        let some_open : 0 < w.open_requests = ground (arith, e) in
        (omega (arith, same, some_open), omega (arith, le, some_open)))
step-IsCounted drains w n small (same, le) = (
  if-both (λ (m : ReloadManager). m.health.in_flight ≡ w.open_requests + w.lost)
      w.manager.is_draining same same,
  omega (arith, le),
)

run-IsCounted :
    (es : List Event) (w : Worker) (n : ℕ)
    → n + length es < 2 ^ 64
    → IsCounted n w
    → IsCounted (n + length es) (run es w)
unfolding run
run-IsCounted [] w n small (same, le) = (same, omega (arith, le))
run-IsCounted (e ∷ es) w n small c =
    let one : n + 1 < 2 ^ 64 = omega (arith, small) in
    let (same, le) =
      run-IsCounted es (step e w) (n + 1) (omega (arith, small)) (step-IsCounted e w n one c) in
    (same, omega (arith, le))

-- After fewer than 2 ^ 64 tests, countings, answers, losses of a handler's future and beginnings of a
-- drain, in any order, the counter of requests in flight is the number of the requests that are open
-- and of those whose future was lost.
pub in_flight-run :
    (es : List Event) (config : ReloadConfig)
    → length es < 2 ^ 64
    → (run es (start config)).manager.health.in_flight
      ≡ (run es (start config)).open_requests + (run es (start config)).lost
in_flight-run es config small =
    (run-IsCounted es (start config) 0 (omega (arith, small)) (refl, omega arith)).0

-- Where the caller of `wait_for_drain` stands.
abbrev answer : ℕ → ℕ → Waiter
answer deadline n = if eqb n 0 then returned true else waiting deadline

abbrev IsWatched : ℕ → Worker → Type 0
IsWatched deadline w =
    (w.manager.is_draining ≡ true)
    × (w.tested ≡ 0)
    × (w.manager.health.in_flight ≡ w.open_requests + w.lost)
    × (w.open_requests + w.lost < 2 ^ 64)
    × (w.manager.waiter ≡ answer deadline (w.open_requests + w.lost))

-- Watched, with at most as many open requests as before.
abbrev IsClosing : ℕ → Worker → Worker → Type 0
IsClosing deadline w v = IsWatched deadline v × (v.open_requests ≤ w.open_requests)

step-IsWatched :
    (e : Event) (w : Worker) (deadline : ℕ) → IsWatched deadline w → IsClosing deadline w (step e w)
unfolding step refused on_request_complete start_drain
step-IsWatched arrives w deadline (d, none', same, small, stands) =
    rw (d, refused) ((refl, none', same, small, stands), omega arith)
step-IsWatched counts w deadline (d, none', same, small, stands) =
    if-split (IsClosing deadline w) (eqb w.tested 0)
      (λ e. ((d, none', same, small, stands), omega arith)) (λ e. absurd (ground (arith, e, none')))
step-IsWatched completes w deadline (d, none', same, small, stands) =
    if-split (IsClosing deadline w) (eqb w.open_requests 0)
      (λ e. ((d, none', same, small, stands), omega arith))
      (λ e.
        let some_open : 0 < w.open_requests = ground (arith, e) in
        let more : eqb (w.open_requests + w.lost) 0 ≡ false = ground (arith, some_open) in
        let waits : w.manager.waiter ≡ waiting deadline = stands ∙ rw more in
        let left : (w.open_requests - 1) + w.lost ≡ (w.open_requests + w.lost) - 1 =
          omega (arith, some_open) in
        (
          (
            d,
            none',
            omega (arith, same, small, some_open),
            omega (arith, small),
            rw (d, same, waits, left) refl,
          ),
          omega arith,
        ))
step-IsWatched loses w deadline (d, none', same, small, stands) =
    if-split (IsClosing deadline w) (eqb w.open_requests 0)
      (λ e. ((d, none', same, small, stands), omega arith))
      (λ e.
        let some_open : 0 < w.open_requests = ground (arith, e) in
        let left : (w.open_requests - 1) + (w.lost + 1) ≡ w.open_requests + w.lost =
          omega (arith, some_open) in
        (
          (
            d,
            none',
            omega (arith, same, some_open),
            omega (arith, small, some_open),
            stands ∙ ap (answer deadline) (sym left),
          ),
          omega arith,
        ))
step-IsWatched drains w deadline (d, none', same, small, stands) =
    rw (d, start_drain) ((refl, none', same, small, stands), omega arith)

run-IsWatched :
    (es : List Event) (w : Worker) (deadline : ℕ)
    → IsWatched deadline w
    → IsClosing deadline w (run es w)
unfolding run
run-IsWatched [] w deadline k = (k, omega arith)
run-IsWatched (e ∷ es) w deadline k =
    let (kept, le) = step-IsWatched e w deadline k in
    let (all, le') = run-IsWatched es (step e w) deadline kept in (all, omega (arith, le, le'))

-- While a worker drains, and no request stands between the test and the counting when the waiting
-- begins, no request is let in, and the caller that waits for the drain has its answer exactly when
-- no request is open and none was lost, whatever arrives, whichever requests are answered and
-- whichever futures are lost before the timeout.
pub waiter-run :
    (es : List Event) (w : Worker) (deadline : ℕ)
    → w.manager.is_draining ≡ true
    → w.tested ≡ 0
    → w.manager.health.in_flight ≡ w.open_requests + w.lost
    → w.open_requests + w.lost < 2 ^ 64
    → 0 < w.open_requests + w.lost
    → w.manager.waiter ≡ waiting deadline
    → ((run es w).open_requests ≤ w.open_requests)
      × ((run es w).manager.waiter ≡ (
          if eqb ((run es w).open_requests + (run es w).lost) 0
          then returned true
          else waiting deadline))
waiter-run es w deadline d none' same small some_open waits =
    let no : eqb (w.open_requests + w.lost) 0 ≡ false = ground (arith, some_open) in
    let (kept, le) = run-IsWatched es w deadline (d, none', same, small, waits ∙ rw no) in
    (le, kept.4)
