-- ===== src/Core/Reload/Drain.antt =====
-- The drain: whom a request's end wakes.
use hypern.Core.Reload.{
  ReloadManager, waiting, returned, on_request_start, on_request_complete, look, await_drain,
  expire, notify_waiters,
}
use hypern.Prelude.{
  ℕ, suc, ◌+◌, ◌-◌, ◌*◌, ◌^◌, ◌≤◌, ◌<◌, ◌≡◌, refl, ap, inl, inr, Bool, true, false, ◌&&◌, List, [],
  ◌∷◌, arith, leb, eqb, if◌then◌else◌, if-both, Bool-cases,
}

-- What requests and time do while a caller waits.
pub data Event : Type 0 where
  begins ends : Event
  passes : ℕ → Event

unfoldable pub handle : Event → ReloadManager → ReloadManager
handle begins m = on_request_start m
handle ends m = on_request_complete m
handle (passes now) m = expire now m

unfoldable pub handle_all : List Event → ReloadManager → ReloadManager
handle_all [] m = m
handle_all (e ∷ es) m = handle_all es (handle e m)

abbrev pub begun : List Event → ℕ
begun [] = 0
begun (begins ∷ es) = suc (begun es)
begun (ends ∷ es) = begun es
begun (passes now ∷ es) = begun es

abbrev pub ended : List Event → ℕ
ended [] = 0
ended (begins ∷ es) = ended es
ended (ends ∷ es) = suc (ended es)
ended (passes now ∷ es) = ended es

-- Every time that passes is before the deadline.
abbrev pub AreBefore : ℕ → List Event → Type 0
AreBefore deadline [] = Unit
AreBefore deadline (passes now ∷ es) = (now < deadline) × AreBefore deadline es
AreBefore deadline (begins ∷ es) = AreBefore deadline es
AreBefore deadline (ends ∷ es) = AreBefore deadline es

-- A caller that has its answer keeps it.
handle_all_returned :
    (es : List Event) (m : ReloadManager) (b : Bool)
    → m.waiter ≡ returned b
    → (handle_all es m).waiter ≡ returned b
unfolding handle_all handle on_request_start on_request_complete expire
handle_all_returned [] m b h = h
handle_all_returned (begins ∷ es) m b h = handle_all_returned es _ b h
handle_all_returned (ends ∷ es) m b h = handle_all_returned es (on_request_complete m) b (
    if-both (λ w. w ≡ returned b) (m.is_draining && eqb (m.health.in_flight - 1) 0)
      (ap notify_waiters h) h)
handle_all_returned (passes now ∷ es) m b h =
    handle_all_returned es (expire now m) b (rw (h, expire) refl)

early : (now deadline : ℕ) → now < deadline → leb deadline now ≡ false
early now deadline h = ground (arith, h)

-- A registered caller of `wait_for_drain` is woken: while the process drains, once as many requests
-- have ended as were in flight and have begun since, the call has returned true, in any order of the
-- beginnings and ends, if the time stays before its deadline and the counter does not wrap.
pub wait_for_drain_lem :
    (es : List Event) (m : ReloadManager) (deadline : ℕ)
    → m.is_draining ≡ true
    → m.waiter ≡ waiting deadline
    → 0 < m.health.in_flight
    → m.health.in_flight + begun es < 2 ^ 64
    → AreBefore deadline es
    → m.health.in_flight + begun es ≤ ended es
    → (handle_all es m).waiter ≡ returned true
unfolding handle_all handle on_request_start on_request_complete expire
wait_for_drain_lem [] m deadline d w pos small before all = absurd (omega (arith, pos, all))
wait_for_drain_lem (begins ∷ es) m deadline d w pos small before all =
    wait_for_drain_lem es (on_request_start m) deadline d w (omega (arith, pos, small))
      (omega (arith, pos, small)) before (omega (arith, small, all))
wait_for_drain_lem (ends ∷ es) m deadline d w pos small before all =
    elim (Bool-cases (eqb (m.health.in_flight - 1) 0)) [
      | inl last ↦ handle_all_returned es (on_request_complete m) true (rw (d, last, w) refl)
      | inr more ↦
          let left : 1 < m.health.in_flight = ground (arith, more, pos) in
          wait_for_drain_lem es (on_request_complete m) deadline d (rw (d, more) w)
            (omega (arith, left, small)) (omega (arith, left, small)) before
            (omega (arith, left, small, all))
    ]
wait_for_drain_lem (passes now ∷ es) m deadline d w pos small before all =
    wait_for_drain_lem es (expire now m) deadline d
      (rw (w, expire)
        (ap (λ b. if b then returned false else waiting deadline) (early now deadline before.0)))
      pos small before.1 all

-- A caller that looked at the counter before the last request ended and registers after it is not
-- woken: nobody is in flight, and the call returns false once the timeout has passed.
pub expire-await_drain :
    (m : ReloadManager) (now late : ℕ)
    → m.is_draining ≡ true
    → m.health.in_flight ≡ 1
    → now + m.config.drain_timeout_secs * 1000000000 ≤ late
    → let m' = await_drain now (on_request_complete (look m)) in
      (m'.health.in_flight ≡ 0) × ((expire late m').waiter ≡ returned false)
unfolding look on_request_complete await_drain expire
expire-await_drain m now late d one h =
    let over : leb (now + m.config.drain_timeout_secs * 1000000000) late ≡ true =
      ground (arith, h) in
    (rw one refl, rw (one, d, over) refl)
