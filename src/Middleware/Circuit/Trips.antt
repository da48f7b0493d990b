-- ===== src/Middleware/Circuit/Trips.antt =====
-- A circuit opens after enough failures in a row, and refuses requests until its timeout has passed.
use hypern.Prelude.{
  ℕ, ◌+◌, ◌≤◌, ◌<◌, String, ◌≡◌, sym, ap, ◌∙◌, subst, inl, inr, true, false, Option, none, some,
  List, [], ◌∷◌, arith, eq_refl, leb, if◌then◌else◌, if-both, Bool-cases, Option-cases, ◌==◌,
  or_default, length, string_eq, nat_eq,
}
use hypern.Prelude.Map
use hypern.Prelude.Map.{Map}
use hypern.Middleware.Context.{MiddlewareContext, response}
use hypern.Middleware.Circuit.{
  timed_out, CircuitState, CircuitBreakerConfig, CircuitBreakerState, CircuitBreakerMiddleware,
  Call, executes, succeeds, fails, closed, opened, new_circuit, new, get_circuit, get_state,
  succeeded, failed, probed, admission, covers, execute, run, refusal,
}
use hypern.Middleware.Circuit.States.{own_step, own_run, lookup-run, config-run}

-- A failure of `path` at each of these times.
abbrev pub fails_at : String → List ℕ → List Call
fails_at path [] = []
fails_at path (t ∷ ts) = fails path t ∷ fails_at path ts

-- The state of a circuit that has counted `n` failures since it was last closed.
abbrev pub counted : CircuitBreakerConfig → ℕ → CircuitState
counted config n = if leb config.failure_threshold n then opened else closed

get_state-or_default :
    (path : String) (m : CircuitBreakerMiddleware)
    → get_state path m ≡ (or_default new_circuit (Map.lookup path m.circuits)).state
unfolding get_state
get_state-or_default path m = ground arith

own_fails :
    (config : CircuitBreakerConfig) (path : String) (t : ℕ) (o : Option CircuitBreakerState)
    → own_step config path (fails path t) o ≡ some (failed config t (or_default new_circuit o))
own_fails config path t o =
    ap (λ b. if b then some (failed config t (or_default new_circuit o)) else o) (eq_refl path)

failed-opened :
    (config : CircuitBreakerConfig) (now : ℕ) (cb : CircuitBreakerState)
    → cb.state ≡ opened
    → (failed config now cb).state ≡ opened
unfolding failed
failed-opened config now cb h = ground arith

failed-closed :
    (config : CircuitBreakerConfig) (now : ℕ) (cb : CircuitBreakerState)
    → cb.state ≡ closed
    → ((failed config now cb).failure_count ≡ cb.failure_count + 1)
      × ((failed config now cb).state ≡ counted config (cb.failure_count + 1))
unfolding failed
failed-closed config now cb h = ground arith

own_run-opened :
    (config : CircuitBreakerConfig) (path : String) (ts : List ℕ) (cb : CircuitBreakerState)
    → cb.state ≡ opened
    → (or_default new_circuit (own_run config path (fails_at path ts) (some cb))).state ≡ opened
own_run-opened config path [] cb h = h
own_run-opened config path (t ∷ ts) cb h =
    ap (λ z. (or_default new_circuit (own_run config path (fails_at path ts) z)).state)
      (own_fails config path t (some cb))
    ∙ own_run-opened config path ts (failed config t cb) (failed-opened config t cb h)

own_run-counted :
    (config : CircuitBreakerConfig) (path : String) (ts : List ℕ) (o : Option CircuitBreakerState)
    → (or_default new_circuit o).state ≡ counted config (or_default new_circuit o).failure_count
    → (or_default new_circuit (own_run config path (fails_at path ts) o)).state
      ≡ counted config ((or_default new_circuit o).failure_count + length ts)
own_run-counted config path [] o h = h ∙ ap (counted config) (omega arith)
own_run-counted config path (t ∷ ts) o h =
    let cb = or_default new_circuit o in
    let next = failed config t cb in
    let here =
      ap (λ z. (or_default new_circuit (own_run config path (fails_at path ts) z)).state)
        (own_fails config path t o) in
    elim (Bool-cases (leb config.failure_threshold cb.failure_count)) [
      | inl tripped ↦
          let open' = h ∙ ap (λ b. if b then opened else closed) tripped in
          here ∙ own_run-opened config path ts next (failed-opened config t cb open') ∙ ground arith
      | inr counting ↦
          let step' =
            failed-closed config t cb (h ∙ ap (λ b. if b then opened else closed) counting) in
          here
          ∙ own_run-counted config path ts (some next) (step'.1 ∙ ap (counted config) (sym step'.0))
          ∙ ap (counted config) (omega (arith, step'.0))
    ]

-- Failures alone, from a circuit that was never used: it is open exactly when they are at least as
-- many as the failure threshold (which is at least 1), and closed before that.
pub get_state_fails :
    (to_string : ℕ → String) (config : CircuitBreakerConfig) (path : String) (ts : List ℕ)
    → 1 ≤ config.failure_threshold
    → get_state path (run to_string (new config) (fails_at path ts))
      ≡ (if leb config.failure_threshold (length ts) then opened else closed)
unfolding Map.lookup
get_state_fails to_string config path ts h =
    get_state-or_default path (run to_string (new config) (fails_at path ts))
    ∙ ap (λ o. (or_default new_circuit o).state)
        (lookup-run to_string path (new config) (fails_at path ts))
    ∙ own_run-counted config path ts none (ground arith)
    ∙ ap (counted config) (omega arith)

-- An open circuit whose last failure was no earlier than `t`.
abbrev pub IsOpenSince : ℕ → Option CircuitBreakerState → Type 0
IsOpenSince t o = elim o [
  | none ↦ ⊥
  | some cb ↦ (cb.state ≡ opened) × (t' : ℕ) × (cb.last_failure_at ≡ some t') × (t ≤ t')
]

-- The clock reading of a call, if it takes one, is from `t` on and before `t + d`.
abbrev pub IsWithin : ℕ → ℕ → Call → Type 0
IsWithin t d (executes now ctx) = (t ≤ now) × (now < t + d)
IsWithin t d (succeeds path) = Unit
IsWithin t d (fails path now) = (t ≤ now) × (now < t + d)

abbrev pub AllWithin : ℕ → ℕ → List Call → Type 0
AllWithin t d [] = Unit
AllWithin t d (c ∷ cs) = IsWithin t d c × AllWithin t d cs

not_timed_out :
    (config : CircuitBreakerConfig) (now t : ℕ) (cb : CircuitBreakerState)
    → (t ≤ now) × (now < t + config.timeout)
    → IsOpenSince t (some cb)
    → timed_out config now cb ≡ false
not_timed_out config now t cb w (h, t', last, le) = ground arith

probed-IsOpenSince :
    (config : CircuitBreakerConfig) (now t : ℕ) (cb : CircuitBreakerState)
    → (t ≤ now) × (now < t + config.timeout)
    → IsOpenSince t (some cb)
    → (probed config now cb ≡ cb) × (admission config now cb ≡ none)
unfolding probed admission
probed-IsOpenSince config now t cb w h = ground (arith, not_timed_out config now t cb w h, h.0)

failed-IsOpenSince :
    (config : CircuitBreakerConfig) (now t : ℕ) (cb : CircuitBreakerState)
    → t ≤ now
    → IsOpenSince t (some cb)
    → IsOpenSince t (some (failed config now cb))
unfolding failed
failed-IsOpenSince config now t cb w h = (ground (arith, h.0), now, ground (arith, h.0), w)

succeeded-IsOpenSince :
    (config : CircuitBreakerConfig) (t : ℕ) (cb : CircuitBreakerState)
    → IsOpenSince t (some cb)
    → IsOpenSince t (some (succeeded config cb))
unfolding succeeded
succeeded-IsOpenSince config t cb h =
    let same : succeeded config cb ≡ cb = ground (arith, h.0) in
    subst (λ z. IsOpenSince t (some z)) (sym same) h

own_step-IsOpenSince :
    (config : CircuitBreakerConfig) (path : String) (t : ℕ) (c : Call)
    (o : Option CircuitBreakerState)
    → IsWithin t config.timeout c
    → IsOpenSince t o
    → IsOpenSince t (own_step config path c o)
own_step-IsOpenSince config path t c none w h = elim h [ ]
own_step-IsOpenSince config path t (executes now ctx) (some cb) w h =
    let h' =
      subst (λ z. IsOpenSince t (some z)) (sym (probed-IsOpenSince config now t cb w h).0) h in
    if-both (IsOpenSince t) (ctx.path == path)
      (if-both (IsOpenSince t) (covers config ctx.path) h' h) h
own_step-IsOpenSince config path t (succeeds p) (some cb) w h =
    if-both (IsOpenSince t) (p == path) (succeeded-IsOpenSince config t cb h) h
own_step-IsOpenSince config path t (fails p now) (some cb) w h =
    if-both (IsOpenSince t) (p == path) (failed-IsOpenSince config now t cb w.0 h) h

own_run-IsOpenSince :
    (config : CircuitBreakerConfig) (path : String) (t : ℕ) (cs : List Call)
    (o : Option CircuitBreakerState)
    → AllWithin t config.timeout cs
    → IsOpenSince t o
    → IsOpenSince t (own_run config path cs o)
own_run-IsOpenSince config path t [] o w h = h
own_run-IsOpenSince config path t (c ∷ cs) o w h =
    own_run-IsOpenSince config path t cs _ w.1 (own_step-IsOpenSince config path t c o w.0 h)

execute-IsOpenSince :
    (to_string : ℕ → String) (m : CircuitBreakerMiddleware) (now t : ℕ) (ctx : MiddlewareContext)
    → (t ≤ now) × (now < t + m.config.timeout)
    → covers m.config ctx.path ≡ true
    → IsOpenSince t (Map.lookup ctx.path m.circuits)
    → (execute to_string now ctx m).1 ≡ (response (refusal to_string m.config), ctx)
unfolding execute get_circuit
execute-IsOpenSince to_string m now t ctx w yes' h =
    elim (Option-cases (Map.lookup ctx.path m.circuits)) [
      | inl none' ↦ absurd (subst (IsOpenSince t) none' h)
      | inr (cb, some') ↦
          let h' = subst (IsOpenSince t) some' h in
          ground (arith, some', yes', (probed-IsOpenSince m.config now t cb w h').1)
    ]

-- Once a circuit is open with its last failure at `t`, every later request to its path, if the
-- breaker covers the path, is refused with the 503 response and its context unchanged, whatever calls
-- came between, as long as the clock readings of those calls and of the request lie from `t` on and
-- before `t + timeout`.
pub execute_refused-run :
    (to_string : ℕ → String) (m : CircuitBreakerMiddleware) (cb : CircuitBreakerState) (t : ℕ)
    (cs : List Call) (now : ℕ) (ctx : MiddlewareContext)
    → Map.lookup ctx.path m.circuits ≡ some cb
    → cb.state ≡ opened
    → cb.last_failure_at ≡ some t
    → AllWithin t m.config.timeout cs
    → (t ≤ now) × (now < t + m.config.timeout)
    → covers m.config ctx.path ≡ true
    → (execute to_string now ctx (run to_string m cs)).1
      ≡ (response (refusal to_string m.config), ctx)
execute_refused-run to_string m cb t cs now ctx here opened' last ws w yes' =
    let config' = sym (config-run to_string m cs) in
    let start = subst (IsOpenSince t) (sym here) (opened', t, last, omega arith) in
    execute-IsOpenSince to_string (run to_string m cs) now t ctx
      (subst (λ z. (t ≤ now) × (now < t + z.timeout)) config' w)
      (subst (λ z. covers z ctx.path ≡ true) config' yes')
      (subst (IsOpenSince t) (sym (lookup-run to_string ctx.path m cs))
        (own_run-IsOpenSince m.config ctx.path t cs _ ws start))
    ∙ ap (λ z. (response (refusal to_string z), ctx)) (sym config')
