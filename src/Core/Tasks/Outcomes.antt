-- ===== src/Core/Tasks/Outcomes.antt =====
-- What becomes of a task over any steps of all threads.
use hypern.Prelude.Map
use hypern.Core.Tasks.{
  TaskResult, is_done, repeat, idle, TaskExecutor, Step, step, run, registers, sends, checks,
  receives, cancels, cleans, starts, shuts_down, finishes, register, new, get_result, new_result,
}
use hypern.Core.Tasks.Counts.{count_all, count_held}
use hypern.Core.Tasks.Soundness.{
  is_finished, Keeps, places-Keeps, send-Keeps, check-Keeps, receive-Keeps,
}
use hypern.Core.Tasks.Entries.{start-Keeps, finish-Keeps, cancel-Keeps, cleanup-Keeps}
use hypern.Prelude.{
  ℕ, zero, suc, ◌≤◌, String, ◌≡◌, refl, sym, ap, ◌∙◌, subst, ◌⊎◌, inl, inr, true, Option, none,
  some, List, [], ◌∷◌, arith, Bool-cases, ◌==◌, string_eq, nat_eq,
}

-- The ids of different counts differ.
abbrev pub IsUnique : (ℕ → ℕ → String) → Type 0
IsUnique format_id = (t t' k k' : ℕ) → format_id t k ≡ format_id t' k' → k ≡ k'

module _ (format_id : ℕ → ℕ → String) (unique : IsUnique format_id) (id : String) where
  -- The counter has not come to the id.
  unfoldable pub IsFresh : TaskExecutor → Type 0
  IsFresh e = (t : ℕ) × ((k : ℕ) × ((e.counter ≤ k) × (format_id t k ≡ id)))

  unfoldable pub IsSound : TaskExecutor → Type 0
  IsSound e =
      (count_all id e ≤ 1)
      × (is_finished (get_result id e) ≡ true → count_all id e ≡ 0)
      × (IsFresh e → (count_all id e ≡ 0) × (get_result id e ≡ none))
      × Map.Distinct e.results

  Keeps-IsSound : (e e' : TaskExecutor) → Keeps id e e' → IsSound e → IsSound e'
  unfolding Keeps IsSound IsFresh
  Keeps-IsSound e e' (le, absent, done, settled, c, d) (one, place, fresh, distinct) = (
    omega (arith, le, one),
    λ p. elim (done p) [ inl q ↦ omega (arith, le, place q) | inr q ↦ omega (arith, q, one) ],
    λ (t, (k, (h, q))).
        let f = fresh (t, (k, (subst (λ x. x ≤ k) c h, q))) in (omega (arith, le, f.0), absent f.1),
    d distinct,
  )

  -- A step of anything but `register`.
  pub step-Keeps :
      (s : Step) (e : TaskExecutor)
      → Map.Distinct e.results
      → Keeps id e (step format_id s e)
        ⊎ ((t : ℕ) × ((now : ℕ) × ((d : Option ℕ) × (step format_id s e
                  ≡ register format_id t now d e))))
  unfolding step
  step-Keeps (registers t now delay_ms) e d = inr (t, (now, (delay_ms, refl)))
  step-Keeps (sends n) e d = inl (send-Keeps id n e)
  step-Keeps (checks n) e d = inl (check-Keeps id n e)
  step-Keeps (receives n) e d = inl (receive-Keeps id n e)
  step-Keeps (cancels task_id) e d = inl (cancel-Keeps id task_id e)
  step-Keeps (cleans now max_age) e d = inl (cleanup-Keeps id now max_age e d)
  step-Keeps (starts n now) e d = inl (start-Keeps id n now e)
  step-Keeps shuts_down e d = inl (places-Keeps id e _ (omega arith) refl refl)
  step-Keeps (finishes n now outcome) e d = inl (finish-Keeps id n now outcome e)

  register-IsSound :
      (t now : ℕ) (delay_ms : Option ℕ) (e : TaskExecutor)
      → IsSound e
      → IsSound (register format_id t now delay_ms e)
  unfolding IsSound IsFresh register
  register-IsSound t now delay_ms e (one, place, fresh, distinct) =
      let new_id = format_id t e.counter in
      let found = Map.lookup-insert new_id id (new_result new_id) e.results in
      let distinct' = Map.insert-Distinct new_id (new_result new_id) e.results distinct in
      elim (Bool-cases (new_id == id)) [
        | inl own ↦
            let added : get_result id (register format_id t now delay_ms e)
                ≡ some (new_result new_id) =
              found ∙ rw own refl in
            let f = fresh (t, (e.counter, (omega arith, (string_eq.beq_iff _ _).0 own))) in
            (
              rw own (omega (arith, f.0)),
              λ p. absurd (ground (arith, ap is_finished (sym added) ∙ p)),
              λ (t', (k, (h, q))). absurd (
                  omega
                    (arith, h, unique t t' e.counter k ((string_eq.beq_iff _ _).0 own ∙ sym q))),
              distinct',
            )
        | inr another ↦
            let same : get_result id (register format_id t now delay_ms e) ≡ get_result id e =
              found ∙ rw another refl in
            (
              rw another (omega (arith, one)),
              λ p. rw another (omega (arith, place (ap is_finished (sym same) ∙ p))),
              λ (t', (k, (h, q))).
                  let f = fresh (t', (k, (omega (arith, h), q))) in
                  (rw another (omega (arith, f.0)), same ∙ f.1),
              distinct',
            )
      ]

  pub new-IsSound : (num_workers queue_size : ℕ) → IsSound (new num_workers queue_size)
  unfolding IsSound IsFresh Map.lookup
  new-IsSound num_workers queue_size = (
    omega (arith, idle_workers num_workers),
    λ p. absurd (ground (arith, p)),
    λ _. (omega (arith, idle_workers num_workers), refl),
    tt,
  )
    where
      idle_workers : (n : ℕ) → count_held id (repeat n idle) ≡ 0
      idle_workers zero = refl
      idle_workers (suc n) = omega (arith, idle_workers n)

  step-IsSound : (s : Step) (e : TaskExecutor) → IsSound e → IsSound (step format_id s e)
  unfolding IsSound
  step-IsSound s e h = elim (step-Keeps s e h.3) [
    | inl k ↦ Keeps-IsSound e (step format_id s e) k h
    | inr (t, (now, (d, q))) ↦ subst IsSound (sym q) (register-IsSound t now d e h)
  ]

  pub run-IsSound : (ss : List Step) (e : TaskExecutor) → IsSound e → IsSound (run format_id ss e)
  unfolding run
  run-IsSound [] e h = h
  run-IsSound (s ∷ ss) e h = run-IsSound ss (step format_id s e) (step-IsSound s e h)

  -- The task is nowhere, its entry is as it was or removed, and no new task gets the id.
  IsSettled : Option TaskResult → TaskExecutor → Type 0
  IsSettled o e =
      (count_all id e ≡ 0)
      × ((get_result id e ≡ o) ⊎ (get_result id e ≡ none))
      × (IsFresh e → ⊥)
      × Map.Distinct e.results

  step-IsSettled :
      (o : Option TaskResult) (s : Step) (e : TaskExecutor)
      → is_finished o ≡ true
      → IsSettled o e
      → IsSettled o (step format_id s e)
  unfolding IsSettled IsFresh Keeps register
  step-IsSettled o s e done (z, entry, old, distinct) = elim (step-Keeps s e distinct) [
    | inl (le, absent, _, kept, c, d) ↦ (
      omega (arith, le, z),
      elim entry [
        | inr q ↦ inr (absent q)
        | inl q ↦ elim (kept z (ap is_finished q ∙ done)) [ inl r ↦ inl (r ∙ q) | inr r ↦ inr r ]
      ],
      λ (t, (k, (h, q))). old (t, (k, (subst (λ x. x ≤ k) c h, q))),
      d distinct,
    )
    | inr (t, (now, (delay_ms, q))) ↦
        subst (IsSettled o) (sym q) (register-IsSettled t now delay_ms)
  ]
    where
      register-IsSettled :
          (t now : ℕ) (delay_ms : Option ℕ) → IsSettled o (register format_id t now delay_ms e)
      register-IsSettled t now delay_ms =
          let new_id = format_id t e.counter in
          elim (Bool-cases (new_id == id)) [
            | inl own ↦ absurd (old (t, (e.counter, (omega arith, (string_eq.beq_iff _ _).0 own))))
            | inr another ↦
                let same : get_result id (register format_id t now delay_ms e) ≡ get_result id e =
                  Map.lookup-insert new_id id (new_result new_id) e.results ∙ rw another refl in
                (
                  rw another (omega (arith, z)),
                  elim entry [ inl q ↦ inl (same ∙ q) | inr q ↦ inr (same ∙ q) ],
                  λ (t', (k, (h, q))). old (t', (k, (omega (arith, h), q))),
                  Map.insert-Distinct new_id (new_result new_id) e.results distinct,
                )
          ]

  run-IsSettled :
      (o : Option TaskResult) (ss : List Step) (e : TaskExecutor)
      → is_finished o ≡ true
      → IsSettled o e
      → IsSettled o (run format_id ss e)
  unfolding run
  run-IsSettled o [] e done h = h
  run-IsSettled o (s ∷ ss) e done h =
      run-IsSettled o ss (step format_id s e) done (step-IsSettled o s e done h)

  -- A task's result is final: from a new executor, through any steps of the callers and the
  -- workers in any order, an entry that is completed or failed stays exactly as it is through any
  -- further steps, or is removed. The ids of different counts are taken to differ.
  pub get_result-run_done :
      (num_workers queue_size : ℕ) (before after : List Step) (r : TaskResult)
      → get_result id (run format_id before (new num_workers queue_size)) ≡ some r
      → is_done r.status ≡ true
      → (get_result id (run format_id after (run format_id before (new num_workers queue_size)))
          ≡ some r)
        ⊎ (get_result id (run format_id after (run format_id before (new num_workers queue_size)))
            ≡ none)
  unfolding IsSound IsSettled
  get_result-run_done num_workers queue_size before after r h done =
      let e = run format_id before (new num_workers queue_size) in
      let (one, place, fresh, distinct) =
        run-IsSound before (new num_workers queue_size) (new-IsSound num_workers queue_size) in
      (run-IsSettled (some r) after e done
        (place (ap is_finished h ∙ done), inl h, λ f. ground (arith, h, (fresh f).1), distinct)).1
