-- ===== src/Core/Tasks/Refused.antt =====
-- The fate of a task that is cancelled before a worker has taken it.
use hypern.Prelude.Map
use hypern.Core.Tasks.{
  TaskExecutor, Step, registers, sends, checks, receives, cancels, cleans, starts, shuts_down,
  finishes, new, new_result, cancel_result, get_result, register, cancel, step, run,
}
use hypern.Core.Tasks.Counts.{count_held}
use hypern.Core.Tasks.Soundness.{Keeps}
use hypern.Core.Tasks.Outcomes.{IsUnique, IsFresh, IsSound, step-Keeps, new-IsSound, run-IsSound}
use hypern.Prelude.{
  ℕ, ◌≤◌, String, ◌≡◌, refl, sym, ◌∙◌, subst, inl, inr, true, Option, some, List, [], ◌∷◌, arith,
  Bool-cases, ◌==◌, string_eq, nat_eq,
}
use hypern.Core.Tasks.Refusing.{
  refused, Refuses, send-Refuses, check-Refuses, receive-Refuses, start-Refuses, finish-Refuses,
  cancel-Refuses, cleanup-Refuses,
}

module _ (format_id : ℕ → ℕ → String) (unique : IsUnique format_id) (id : String) where
  -- Refused, the id given out, and every entry once.
  IsRefused : TaskExecutor → Type 0
  IsRefused e = Refuses id e × (IsFresh format_id unique id e → ⊥) × Map.Distinct e.results

  register-IsRefused :
      (t now : ℕ) (delay_ms : Option ℕ) (e : TaskExecutor)
      → IsRefused e
      → IsRefused (register format_id t now delay_ms e)
  unfolding IsRefused Refuses IsFresh register
  register-IsRefused t now delay_ms e ((z, r), old, d) =
      let new_id = format_id t e.counter in
      let grown = Map.insert-Distinct new_id (new_result new_id) e.results d in
      elim (Bool-cases (new_id == id)) [
        | inl own ↦ absurd (old (t, (e.counter, (omega arith, (string_eq.beq_iff _ _).0 own))))
        | inr another ↦ (
          (z, Map.lookup-insert new_id id (new_result new_id) e.results ∙ rw another r),
          λ (t', (k, (h, q))). old (t', (k, (omega (arith, h), q))),
          grown,
        )
      ]

  -- The steps but `register`; there the steps' common law says the rest.
  step-Refuses :
      (s : Step) (e : TaskExecutor)
      → Map.Distinct e.results
      → Keeps id e (step format_id s e)
      → Refuses id e
      → (IsFresh format_id unique id e → ⊥)
      → Refuses id (step format_id s e)
  unfolding step Refuses IsFresh register
  step-Refuses (registers t now delay_ms) e d k (z, r) old =
      elim (Bool-cases (format_id t e.counter == id)) [
        | inl own ↦ absurd (old (t, (e.counter, (omega arith, (string_eq.beq_iff _ _).0 own))))
        | inr another ↦ (
          z,
          Map.lookup-insert (format_id t e.counter) id (new_result (format_id t e.counter))
                e.results
              ∙ rw another r,
        )
      ]
  step-Refuses (sends n) e d k h old = send-Refuses id n e h
  step-Refuses (checks n) e d k h old = check-Refuses id n e h
  step-Refuses (receives n) e d k h old = receive-Refuses id n e h
  step-Refuses (cancels other) e d k h old = cancel-Refuses id other e h
  step-Refuses (cleans now max_age) e d k h old = cleanup-Refuses id now max_age e d h
  step-Refuses (starts n now) e d k h old = start-Refuses id n now e h
  step-Refuses shuts_down e d k h old = h
  step-Refuses (finishes n now outcome) e d k h old = finish-Refuses id n now outcome e h

  step-IsRefused : (s : Step) (e : TaskExecutor) → IsRefused e → IsRefused (step format_id s e)
  unfolding IsRefused IsFresh Keeps
  step-IsRefused s e (h, old, d) = elim (step-Keeps format_id unique id s e d) [
    | inl (k0, k1, k2, k3, c, kept) ↦ (
      step-Refuses s e d (k0, k1, k2, k3, c, kept) h old,
      λ (t, (n, (le, q))). old (t, (n, (subst (λ x. x ≤ n) c le, q))),
      kept d,
    )
    | inr (t, (now, (delay_ms, q))) ↦
        subst IsRefused (sym q) (register-IsRefused t now delay_ms e (h, old, d))
  ]

  run-IsRefused : (ss : List Step) (e : TaskExecutor) → IsRefused e → IsRefused (run format_id ss e)
  unfolding run
  run-IsRefused [] e h = h
  run-IsRefused (s ∷ ss) e h = run-IsRefused ss (step format_id s e) (step-IsRefused s e h)

  -- A pending task that no worker holds yet is refused for good once it is cancelled: through any
  -- steps of all threads its entry stays cancelled, so that its handler is not called, and stays in
  -- the table. The ids of different counts are taken to differ.
  pub get_result-run_cancelled :
      (num_workers queue_size : ℕ) (before after : List Step)
      → let e = run format_id before (new num_workers queue_size) in
        get_result id e ≡ some (new_result id)
        → count_held id e.workers ≡ 0
        → ((cancel id e).0 ≡ true)
          × (get_result id (run format_id after (cancel id e).1) ≡ some (refused id))
  unfolding IsRefused IsSound IsFresh Refuses cancel
  get_result-run_cancelled num_workers queue_size before after r z =
      let start_state = new num_workers queue_size in
      let e = run format_id before start_state in
      let (one, place, fresh, d) =
        run-IsSound format_id unique id before start_state
          (new-IsSound format_id unique id num_workers queue_size) in
      let own = (string_eq.beq_iff id id).1 refl in
      let entry : get_result id (cancel id e).1 ≡ some (refused id) =
        Map.lookup-modify id id cancel_result e.results ∙ rw (own, r) refl in
      (
        rw (r, cancel) refl,
        (run-IsRefused after (cancel id e).1 (
          (z, entry),
          λ f. ground (arith, r, (fresh f).1),
          Map.modify-Distinct id cancel_result e.results d,
        )).0.1,
      )
