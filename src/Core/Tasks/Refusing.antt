-- ===== src/Core/Tasks/Refusing.antt =====
-- A task that is cancelled before a worker has taken it.
use hypern.Prelude.Map
use hypern.Core.Tasks.{
  TaskResult, BackgroundTask, Worker, idle, receiving, stopped, delaying, executing, cancelled,
  TaskExecutor, Outcome, new_result, pick, is_cancelled, is_disconnected, is_recent, due,
  start_result, finish_result, cancel_result, get_worker, set_worker, get_result, send, check,
  receive_from, receive, cancel, cleanup, start, finish,
}
use hypern.Core.Tasks.Counts.{hit, held, count_held, count_held-set_worker, held-get_worker-le}
use hypern.Prelude.{
  ℕ, ◌≤◌, String, ◌≡◌, refl, sym, ap, ◌∙◌, ◌≢◌, inl, inr, true, false, some, List, [], ◌∷◌, arith,
  ltb, leb, if-both, Bool-cases, Option-cases, ◌==◌, length, string_eq, nat_eq,
}

-- The entry of a task that was cancelled while it was pending.
abbrev pub refused : String → TaskResult
refused id = record (new_result id) { status = cancelled }

module _ (id : String) where
  -- No worker has the task, and its entry says that it is cancelled.
  unfoldable pub Refuses : TaskExecutor → Type 0
  Refuses e = (count_held id e.workers ≡ 0) × (get_result id e ≡ some (refused id))

  pub send-Refuses : (n : ℕ) (e : TaskExecutor) → Refuses e → Refuses (send n e)
  unfolding send Refuses
  send-Refuses n e h = elim (Option-cases (pick n e.sending)) [
    | inl p ↦ rw (p, send) h
    | inr ((t, ts), p) ↦
        rw (p, send)
          (if-both Refuses (is_disconnected e.workers) h
            (if-both Refuses (ltb (length e.queue) e.queue_size) h h))
  ]

  -- A worker that does not have the task comes to a place where it does not have it.
  others :
      (n : ℕ) (v : Worker) (e : TaskExecutor)
      → count_held id e.workers ≡ 0
      → get_worker n e.workers ≢ stopped
      → held id v ≡ 0
      → count_held id (set_worker n v e.workers) ≡ 0
  others n v e z s h = omega (arith, count_held-set_worker id n v e.workers s, z, h)

  pub check-Refuses : (n : ℕ) (e : TaskExecutor) → Refuses e → Refuses (check n e)
  unfolding check Refuses
  check-Refuses n e (z, r) = go (get_worker n e.workers) refl
    where
      go : (w : Worker) → get_worker n e.workers ≡ w → Refuses (check n e)
      go idle q =
          let awake : get_worker n e.workers ≢ stopped = λ s. ground (arith, sym q ∙ s) in
          rw (q, check)
            (if-both Refuses e.running (others n receiving e z awake refl, r)
              (others n stopped e z awake refl, r))
      go receiving q = rw (q, check) (z, r)
      go stopped q = rw (q, check) (z, r)
      go (delaying t) q = rw (q, check) (z, r)
      go (executing t) q = rw (q, check) (z, r)

  pub receive_from-Refuses :
      (n : ℕ) (ts : List BackgroundTask) (e : TaskExecutor)
      → get_worker n e.workers ≢ stopped
      → Refuses e
      → Refuses (receive_from n ts e)
  unfolding receive_from Refuses
  receive_from-Refuses n [] e s (z, r) = (others n idle e z s refl, r)
  receive_from-Refuses n (t ∷ ts) e s (z, r) = elim (Bool-cases (t.id == id)) [
    | inl own ↦
        let entry : is_cancelled (get_result t.id e) ≡ true =
          ap is_cancelled (ap (λ k. get_result k e) ((string_eq.beq_iff t.id id).0 own) ∙ r) in
        rw (entry, receive_from) (others n idle e z s refl, r)
    | inr other ↦
        if-both Refuses (is_cancelled (get_result t.id e)) (others n idle e z s refl, r)
          (others n (delaying t) e z s (rw other refl), r)
  ]

  pub receive-Refuses : (n : ℕ) (e : TaskExecutor) → Refuses e → Refuses (receive n e)
  unfolding receive
  receive-Refuses n e h = go (get_worker n e.workers) refl
    where
      go : (w : Worker) → get_worker n e.workers ≡ w → Refuses (receive n e)
      go receiving q =
          rw (q, receive) (receive_from-Refuses n e.queue e (λ s. ground (arith, sym q ∙ s)) h)
      go idle q = rw (q, receive) h
      go stopped q = rw (q, receive) h
      go (delaying t) q = rw (q, receive) h
      go (executing t) q = rw (q, receive) h

  -- Another task's entry is changed.
  pub modify-Refuses :
      (n : ℕ) (v w : Worker) (t : BackgroundTask) (f : TaskResult → TaskResult) (e : TaskExecutor)
      → get_worker n e.workers ≡ w
      → w ≢ stopped
      → held id w ≡ hit id t
      → held id v ≤ hit id t
      → Refuses e
      → Refuses
          (record e { workers = set_worker n v e.workers; results = Map.modify t.id f e.results })
  unfolding Refuses
  modify-Refuses n v w t f e q s hw le (z, r) =
      let none_held : hit id t ≡ 0 =
        omega (arith, z, hw, ap (held id) q, held-get_worker-le id n e.workers) in
      let other : (t.id == id) ≡ false = ground (arith, none_held, Bool-cases (t.id == id)) in
      (
        others n v e z (λ p. s (sym q ∙ p)) (omega (arith, le, none_held)),
        Map.lookup-modify t.id id f e.results ∙ rw other r,
      )

  pub start-Refuses : (n now : ℕ) (e : TaskExecutor) → Refuses e → Refuses (start n now e)
  unfolding start
  start-Refuses n now e h = go (get_worker n e.workers) refl
    where
      go : (w : Worker) → get_worker n e.workers ≡ w → Refuses (start n now e)
      go (delaying t) q =
          rw (q, start)
            (if-both Refuses (leb (due t) now)
              (modify-Refuses n (executing t) (delaying t) t (start_result now) e q (ground arith)
                refl (omega arith) h)
              h)
      go idle q = rw (q, start) h
      go receiving q = rw (q, start) h
      go stopped q = rw (q, start) h
      go (executing t) q = rw (q, start) h

  pub finish-Refuses :
      (n now : ℕ) (o : Outcome) (e : TaskExecutor) → Refuses e → Refuses (finish n now o e)
  unfolding finish
  finish-Refuses n now o e h = go (get_worker n e.workers) refl
    where
      go : (w : Worker) → get_worker n e.workers ≡ w → Refuses (finish n now o e)
      go (executing t) q =
          rw (q, finish)
            (modify-Refuses n idle (executing t) t (finish_result now o) e q (ground arith) refl
              (omega arith) h)
      go idle q = rw (q, finish) h
      go receiving q = rw (q, finish) h
      go stopped q = rw (q, finish) h
      go (delaying t) q = rw (q, finish) h

  pub cancel-Refuses : (other : String) (e : TaskExecutor) → Refuses e → Refuses (cancel other e).1
  unfolding cancel Refuses
  cancel-Refuses other e (z, r) = elim (Bool-cases (other == id)) [
    | inl own ↦ (z, Map.lookup-modify other id cancel_result e.results ∙ rw (own, r) refl)
    | inr another ↦ (z, Map.lookup-modify other id cancel_result e.results ∙ rw another r)
  ]

  pub cleanup-Refuses :
      (now max_age : ℕ) (e : TaskExecutor)
      → Map.Distinct e.results
      → Refuses e
      → Refuses (cleanup now max_age e)
  unfolding cleanup Refuses
  cleanup-Refuses now max_age e d (z, r) =
      (z, Map.lookup-retain id (λ _ v. is_recent now max_age v) e.results d ∙ rw r refl)
