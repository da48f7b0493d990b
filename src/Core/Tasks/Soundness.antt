-- ===== src/Core/Tasks/Soundness.antt =====
-- What one step does to the entry of an id and to the number of places where its task stands.
use hypern.Prelude.Map
use hypern.Core.Tasks.{
  receive_from, TaskResult, BackgroundTask, Worker, idle, receiving, stopped, delaying, executing,
  TaskExecutor, pick, is_cancelled, is_disconnected, is_done, get_worker, set_worker, get_result,
  send, check, receive,
}
use hypern.Core.Tasks.Counts.{
  held, count, count_held, count_all, count-append, count-pick, count_held-set_worker,
}
use hypern.Prelude.{
  ℕ, suc, ◌+◌, ◌≤◌, String, ◌≡◌, refl, sym, ap, ◌∙◌, subst, ◌≢◌, ◌⊎◌, inl, inr, Bool, true, false,
  Option, none, some, List, [], ◌∷◌, ◌++◌, arith, ltb, if-both, Option-cases, length, string_eq,
  nat_eq,
}

abbrev pub is_finished : Option TaskResult → Bool
is_finished none = false
is_finished (some r) = is_done r.status

-- A step creates no second place for a task, finishes only a task that it takes from its place,
-- and changes no finished entry of a task without a place, but that it may remove it.
unfoldable pub Keeps : String → TaskExecutor → TaskExecutor → Type 0
Keeps id e e' =
    (count_all id e' ≤ count_all id e)
    × (get_result id e ≡ none → get_result id e' ≡ none)
    × (is_finished (get_result id e') ≡ true
        → (is_finished (get_result id e) ≡ true) ⊎ (suc (count_all id e') ≡ count_all id e))
    × (count_all id e ≡ 0
        → is_finished (get_result id e) ≡ true
        → (get_result id e' ≡ get_result id e) ⊎ (get_result id e' ≡ none))
    × (e'.counter ≡ e.counter)
    × (Map.Distinct e.results → Map.Distinct e'.results)

module _ (id : String) where
  -- Where the entries stay, only the places count.
  pub places-Keeps :
      (e e' : TaskExecutor)
      → count_all id e' ≤ count_all id e
      → e'.results ≡ e.results
      → e'.counter ≡ e.counter
      → Keeps id e e'
  unfolding Keeps
  places-Keeps e e' h r c =
      let q = ap (λ t. Map.lookup id t) r in
      (
        h,
        λ p. q ∙ p,
        λ p. inl (ap is_finished (sym q) ∙ p),
        λ _ _. inl q,
        c,
        λ d. subst (λ m. Map.Distinct m) (sym r) d,
      )

  pub same-Keeps : (e : TaskExecutor) → Keeps id e e
  same-Keeps e = places-Keeps e e (omega arith) refl refl

  pub send-Keeps : (n : ℕ) (e : TaskExecutor) → Keeps id e (send n e)
  unfolding send
  send-Keeps n e = elim (Option-cases (pick n e.sending)) [
    | inl p ↦ rw (p, send) (same-Keeps e)
    | inr ((t, ts), p) ↦
        let failed : Keeps id e (record e { sending = ts }) =
          places-Keeps e _ (omega (arith, count-pick id n e.sending t ts p)) refl refl in
        let queued : Keeps id e (record e { sending = ts; queue = e.queue ++ t ∷ [] }) =
          places-Keeps e _
            (omega (arith, count-pick id n e.sending t ts p, count-append id e.queue (t ∷ []))) refl
            refl in
        rw (p, send)
          (if-both (Keeps id e) (is_disconnected e.workers) failed
            (if-both (Keeps id e) (ltb (length e.queue) e.queue_size) queued (same-Keeps e)))
  ]

  -- A worker that is not stopped takes another place.
  pub set_worker-Keeps :
      (n : ℕ) (v w : Worker) (e : TaskExecutor)
      → get_worker n e.workers ≡ w
      → w ≢ stopped
      → held id v ≤ held id w
      → Keeps id e (record e { workers = set_worker n v e.workers })
  set_worker-Keeps n v w e q h le =
      places-Keeps e _
        (omega (arith, ap (held id) q, count_held-set_worker id n v e.workers (λ s. h (sym q ∙ s))))
        refl refl

  pub check-Keeps : (n : ℕ) (e : TaskExecutor) → Keeps id e (check n e)
  unfolding check
  check-Keeps n e = go (get_worker n e.workers) refl
    where
      go : (w : Worker) → get_worker n e.workers ≡ w → Keeps id e (check n e)
      go idle q =
          rw (q, check)
            (if-both (Keeps id e) e.running
              (set_worker-Keeps n receiving idle e q (ground arith) (omega arith))
              (set_worker-Keeps n stopped idle e q (ground arith) (omega arith)))
      go receiving q = rw (q, check) (same-Keeps e)
      go stopped q = rw (q, check) (same-Keeps e)
      go (delaying t) q = rw (q, check) (same-Keeps e)
      go (executing t) q = rw (q, check) (same-Keeps e)

  pub receive_from-Keeps :
      (n : ℕ) (ts : List BackgroundTask) (e : TaskExecutor)
      → e.queue ≡ ts
      → get_worker n e.workers ≡ receiving
      → Keeps id e (receive_from n ts e)
  unfolding receive_from
  receive_from-Keeps n [] e p q = set_worker-Keeps n idle receiving e q (ground arith) (omega arith)
  receive_from-Keeps n (t ∷ ts) e p q =
      let others : (v : Worker)
          → count_held id (set_worker n v e.workers) ≡ count_held id e.workers + held id v =
        λ v. omega (
          arith,
          ap (held id) q,
          count_held-set_worker id n v e.workers (λ s. ground (arith, sym q ∙ s)),
        ) in
      if-both (Keeps id e) (is_cancelled (get_result t.id e))
        (places-Keeps e _ (omega (arith, ap (count id) p, others idle)) refl refl)
        (places-Keeps e _ (omega (arith, ap (count id) p, others (delaying t))) refl refl)

  pub receive-Keeps : (n : ℕ) (e : TaskExecutor) → Keeps id e (receive n e)
  unfolding receive
  receive-Keeps n e = go (get_worker n e.workers) refl
    where
      go : (w : Worker) → get_worker n e.workers ≡ w → Keeps id e (receive n e)
      go receiving q = rw (q, receive) (receive_from-Keeps n e.queue e refl q)
      go idle q = rw (q, receive) (same-Keeps e)
      go stopped q = rw (q, receive) (same-Keeps e)
      go (delaying t) q = rw (q, receive) (same-Keeps e)
      go (executing t) q = rw (q, receive) (same-Keeps e)
