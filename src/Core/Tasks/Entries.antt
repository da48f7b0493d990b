-- ===== src/Core/Tasks/Entries.antt =====
-- What the steps that change entries do to the entry of an id.
use mathlib.Core.Option
use hypern.Prelude.Map
use hypern.Core.Tasks.{
  due, start_result, finish_result, cancel_result, Outcome, start, finish, cancel, cleanup,
  TaskStatus, pending, running, completed, failed, cancelled, TaskResult, BackgroundTask, Worker,
  idle, receiving, stopped, delaying, executing, TaskExecutor, is_recent, is_done, get_worker,
  set_worker, get_result,
}
use hypern.Core.Tasks.Counts.{
  held-get_worker-le, hit, held, count_held, count_all, count_held-set_worker,
}
use hypern.Prelude.{
  ℕ, ◌+◌, ◌≤◌, String, ◌≡◌, refl, sym, ap, ◌∙◌, ◌≢◌, ◌⊎◌, inl, inr, Bool, true, false, Option, none,
  some, arith, leb, if-both, Bool-cases, Option-cases, ◌==◌, string_eq, nat_eq,
}
use hypern.Core.Tasks.Soundness.{is_finished, Keeps, same-Keeps}

module _ (id : String) where
  -- The task of a worker is worked on: only its own entry changes.
  modify-Keeps :
      (n : ℕ) (v w : Worker) (t : BackgroundTask) (f : TaskResult → TaskResult) (e : TaskExecutor)
      → get_worker n e.workers ≡ w
      → w ≢ stopped
      → held id w ≡ hit id t
      → held id v ≤ held id w
      → ((r : TaskResult) → is_done (f r).status ≡ false ⊎ (held id v ≡ 0))
      → Keeps id e
          (record e { workers = set_worker n v e.workers; results = Map.modify t.id f e.results })
  unfolding Keeps
  modify-Keeps n v w t f e q h hw le d = elim (Bool-cases (t.id == id)) [
    | inr other ↦
        let same : Map.lookup id (Map.modify t.id f e.results) ≡ Map.lookup id e.results =
          Map.lookup-modify t.id id f e.results ∙ rw other refl in
        (
          omega (arith, moved, le),
          λ p. same ∙ p,
          λ p. inl (ap is_finished (sym same) ∙ p),
          λ _ _. inl same,
          refl,
          Map.modify-Distinct t.id f e.results,
        )
    | inl own ↦
        let changed : Map.lookup id (Map.modify t.id f e.results)
            ≡ Option.map f (Map.lookup id e.results) =
          Map.lookup-modify t.id id f e.results ∙ rw own refl in
        (
          omega (arith, moved, le),
          λ p. changed ∙ ap (Option.map f) p,
          λ p. elim (Option-cases (Map.lookup id e.results)) [
            | inl absent ↦ absurd (ground (arith, changed, absent, p))
            | inr (r, present) ↦ elim (d r) [
              | inl undone ↦ absurd (
                  ground (
                    arith,
                    sym undone ∙ ap is_finished (sym (changed ∙ ap (Option.map f) present)) ∙ p,
                  ))
              | inr free ↦ inr (omega (arith, moved, free, hw, one own))
            ]
          ],
          λ z _.
              absurd
                (omega (arith, z, hw, one own, ap (held id) q, held-get_worker-le id n e.workers)),
          refl,
          Map.modify-Distinct t.id f e.results,
        )
  ]
    where
      moved :
          count_held id (set_worker n v e.workers) + held id w ≡ count_held id e.workers + held id v
      moved =
          omega (arith, ap (held id) q, count_held-set_worker id n v e.workers (λ s. h (sym q ∙ s)))

      one : (t.id == id) ≡ true → hit id t ≡ 1
      one own = rw own refl

  pub start-Keeps : (n now : ℕ) (e : TaskExecutor) → Keeps id e (start n now e)
  unfolding start
  start-Keeps n now e = go (get_worker n e.workers) refl
    where
      go : (w : Worker) → get_worker n e.workers ≡ w → Keeps id e (start n now e)
      go (delaying t) q =
          rw (q, start)
            (if-both (Keeps id e) (leb (due t) now)
              (modify-Keeps n (executing t) (delaying t) t (start_result now) e q (ground arith)
                refl (omega arith) (λ r. inl refl))
              (same-Keeps id e))
      go idle q = rw (q, start) (same-Keeps id e)
      go receiving q = rw (q, start) (same-Keeps id e)
      go stopped q = rw (q, start) (same-Keeps id e)
      go (executing t) q = rw (q, start) (same-Keeps id e)

  pub finish-Keeps : (n now : ℕ) (o : Outcome) (e : TaskExecutor) → Keeps id e (finish n now o e)
  unfolding finish
  finish-Keeps n now o e = go (get_worker n e.workers) refl
    where
      go : (w : Worker) → get_worker n e.workers ≡ w → Keeps id e (finish n now o e)
      go (executing t) q =
          rw (q, finish)
            (modify-Keeps n idle (executing t) t (finish_result now o) e q (ground arith) refl
              (omega arith) (λ r. inr refl))
      go idle q = rw (q, finish) (same-Keeps id e)
      go receiving q = rw (q, finish) (same-Keeps id e)
      go stopped q = rw (q, finish) (same-Keeps id e)
      go (delaying t) q = rw (q, finish) (same-Keeps id e)

  -- Where the places stay, only the entry counts.
  entry-Keeps :
      (e e' : TaskExecutor)
      → count_all id e' ≡ count_all id e
      → (get_result id e ≡ none → get_result id e' ≡ none)
      → (is_finished (get_result id e') ≡ true → is_finished (get_result id e) ≡ true)
      → (is_finished (get_result id e) ≡ true
          → (get_result id e' ≡ get_result id e) ⊎ (get_result id e' ≡ none))
      → e'.counter ≡ e.counter
      → (Map.Distinct e.results → Map.Distinct e'.results)
      → Keeps id e e'
  unfolding Keeps
  entry-Keeps e e' h a d k c m = (omega (arith, h), a, λ p. inl (d p), λ _. k, c, m)

  is_finished-cancel_result :
      (o : Option TaskResult)
      → (is_finished (Option.map cancel_result o) ≡ is_finished o)
        × (is_finished o ≡ true → Option.map cancel_result o ≡ o)
  is_finished-cancel_result none = (refl, λ _. refl)
  is_finished-cancel_result (some r) = go r.status
    where
      -- The entry with the status.
      at : TaskStatus → TaskResult
      at s = record r { status = s }

      go :
          (s : TaskStatus)
          → (is_done (cancel_result (at s)).status ≡ is_done s)
            × (is_done s ≡ true → some (cancel_result (at s)) ≡ some (at s))
      go pending = (refl, λ p. absurd (ground (arith, p)))
      go running = (refl, λ _. refl)
      go completed = (refl, λ _. refl)
      go failed = (refl, λ _. refl)
      go cancelled = (refl, λ _. refl)

  pub cancel-Keeps : (other : String) (e : TaskExecutor) → Keeps id e (cancel other e).1
  unfolding cancel
  cancel-Keeps other e =
      let c = is_finished-cancel_result (get_result id e) in
      elim (Bool-cases (other == id)) [
        | inl own ↦
            let changed : get_result id (cancel other e).1
                ≡ Option.map cancel_result (get_result id e) =
              Map.lookup-modify other id cancel_result e.results ∙ rw own refl in
            entry-Keeps e (cancel other e).1 refl (λ p. changed ∙ ap (Option.map cancel_result) p)
              (λ p. sym c.0 ∙ ap is_finished (sym changed) ∙ p) (λ p. inl (changed ∙ c.1 p)) refl
              (Map.modify-Distinct other cancel_result e.results)
        | inr another ↦
            let same : get_result id (cancel other e).1 ≡ get_result id e =
              Map.lookup-modify other id cancel_result e.results ∙ rw another refl in
            entry-Keeps e (cancel other e).1 refl (λ p. same ∙ p)
              (λ p. ap is_finished (sym same) ∙ p) (λ _. inl same) refl
              (Map.modify-Distinct other cancel_result e.results)
      ]

  kept_if-cases :
      (p : TaskResult → Bool) (o : Option TaskResult)
      → (Map.kept_if p o ≡ o) ⊎ (Map.kept_if p o ≡ none)
  kept_if-cases p none = inl refl
  kept_if-cases p (some r) = ground (arith, Bool-cases (p r))

  pub cleanup-Keeps :
      (now max_age : ℕ) (e : TaskExecutor)
      → Map.Distinct e.results
      → Keeps id e (cleanup now max_age e)
  unfolding cleanup
  cleanup-Keeps now max_age e d =
      let kept = Map.lookup-retain id (λ _ v. is_recent now max_age v) e.results d in
      elim (kept_if-cases (is_recent now max_age) (get_result id e)) [
        | inl same ↦
            entry-Keeps e (cleanup now max_age e) refl (λ q. kept ∙ same ∙ q)
              (λ q. ap is_finished (sym (kept ∙ same)) ∙ q) (λ _. inl (kept ∙ same)) refl
              (Map.retain-Distinct (λ _ v. is_recent now max_age v) e.results)
        | inr gone ↦
            entry-Keeps e (cleanup now max_age e) refl (λ q. kept ∙ gone)
              (λ q. absurd (ground (arith, ap is_finished (sym (kept ∙ gone)) ∙ q)))
              (λ _. inr (kept ∙ gone)) refl
              (Map.retain-Distinct (λ _ v. is_recent now max_age v) e.results)
      ]
