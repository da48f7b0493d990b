-- ===== src/Middleware/Circuit/States.antt =====
-- Each path has its own circuit, and what is true of a circuit in each of its states.
use mathlib.Core.Option
use hypern.Prelude.{
  ℕ, ◌≤◌, ◌<◌, String, ◌≡◌, refl, sym, ap, ◌∙◌, subst, true, Option, none, some, List, [], ◌∷◌,
  arith, eq_iff, if◌then◌else◌, if-both, ◌==◌, is_some, or_default, string_eq, nat_eq,
}
use hypern.Prelude.Map
use hypern.Prelude.Map.{Map}
use hypern.Middleware.Circuit.{
  CircuitBreakerConfig, CircuitBreakerState, CircuitBreakerMiddleware, Call, executes, succeeds,
  fails, closed, opened, half_open, new_circuit, new, get_circuit, succeeded, failed, probed,
  record_success, record_failure, covers, execute, step, run,
}

-- The circuit of one path, alone: `none` before its first use.
abbrev pub own_step :
    CircuitBreakerConfig → String → Call → Option CircuitBreakerState → Option CircuitBreakerState
own_step config path (executes now ctx) o =
    if ctx.path == path
    then (if covers config ctx.path then some (probed config now (or_default new_circuit o)) else o)
    else o
own_step config path (succeeds p) o = if p == path then Option.map (succeeded config) o else o
own_step config path (fails p now) o =
    if p == path then some (failed config now (or_default new_circuit o)) else o

abbrev pub own_run :
    CircuitBreakerConfig
    → String
    → List Call
    → Option CircuitBreakerState
    → Option CircuitBreakerState
own_run config path [] o = o
own_run config path (c ∷ cs) o = own_run config path cs (own_step config path c o)

lookup-get_circuit :
    (p path : String) (m : CircuitBreakerMiddleware)
    → Map.lookup path (get_circuit p m).circuits ≡ (
        if p == path
        then some (or_default new_circuit (Map.lookup path m.circuits))
        else Map.lookup path m.circuits)
unfolding get_circuit
lookup-get_circuit p path m = ground (
  arith,
  Map.lookup-insert p path new_circuit m.circuits,
  eq_iff p path,
  λ (q : p ≡ path). ap (λ z. Map.lookup z m.circuits) q,
)

lookup-modify-get_circuit :
    (p path : String) (f : CircuitBreakerState → CircuitBreakerState) (m : CircuitBreakerMiddleware)
    → Map.lookup path (Map.modify p f (get_circuit p m).circuits) ≡ (
        if p == path
        then some (f (or_default new_circuit (Map.lookup path m.circuits)))
        else Map.lookup path m.circuits)
lookup-modify-get_circuit p path f m =
    ground
      (arith, Map.lookup-modify p path f (get_circuit p m).circuits, lookup-get_circuit p path m)

config-get_circuit :
    (p : String) (m : CircuitBreakerMiddleware) → (get_circuit p m).config ≡ m.config
unfolding get_circuit
config-get_circuit p m = ground arith

-- A circuit that holds a closed state is below its failure threshold, one that is open knows when it
-- failed last, and one that is half open is below its success threshold.
abbrev pub IsSound : CircuitBreakerConfig → CircuitBreakerState → Type 0
IsSound config cb = elim cb.state [
  | closed ↦ cb.failure_count < config.failure_threshold
  | opened ↦ is_some cb.last_failure_at ≡ true
  | half_open ↦ cb.success_count < config.success_threshold
]

module _ (config : CircuitBreakerConfig) (fails' : 1 ≤ config.failure_threshold)
    (succeeds' : 1 ≤ config.success_threshold) where
  succeeded-IsSound :
      (cb : CircuitBreakerState) → IsSound config cb → IsSound config (succeeded config cb)
  unfolding succeeded
  succeeded-IsSound cb h = ground arith

  failed-IsSound :
      (now : ℕ) (cb : CircuitBreakerState)
      → IsSound config cb
      → IsSound config (failed config now cb)
  unfolding failed
  failed-IsSound now cb h = ground arith

  probed-IsSound :
      (now : ℕ) (cb : CircuitBreakerState)
      → IsSound config cb
      → IsSound config (probed config now cb)
  unfolding probed
  probed-IsSound now cb h = ground arith

module _ (to_string : ℕ → String) where
  pub config-step :
      (m : CircuitBreakerMiddleware) (c : Call) → (step to_string m c).config ≡ m.config
  unfolding step execute record_success record_failure
  config-step m (executes now ctx) = ground (arith, config-get_circuit ctx.path m)
  config-step m (succeeds p) = refl
  config-step m (fails p now) = config-get_circuit p m

  pub lookup-step :
      (path : String) (m : CircuitBreakerMiddleware) (c : Call)
      → Map.lookup path (step to_string m c).circuits
        ≡ own_step m.config path c (Map.lookup path m.circuits)
  unfolding step execute record_success record_failure
  lookup-step path m (executes now ctx) =
      ground (arith, lookup-modify-get_circuit ctx.path path (probed m.config now) m)
  lookup-step path m (succeeds p) = Map.lookup-modify p path (succeeded m.config) m.circuits
  lookup-step path m (fails p now) = lookup-modify-get_circuit p path (failed m.config now) m

  pub config-run :
      (m : CircuitBreakerMiddleware) (cs : List Call) → (run to_string m cs).config ≡ m.config
  unfolding run
  config-run m [] = refl
  config-run m (c ∷ cs) = config-run (step to_string m c) cs ∙ config-step m c

  -- After any history, the circuit of a path is what the calls make of it one by one when every
  -- other path's circuit is ignored.
  pub lookup-run :
      (path : String) (m : CircuitBreakerMiddleware) (cs : List Call)
      → Map.lookup path (run to_string m cs).circuits
        ≡ own_run m.config path cs (Map.lookup path m.circuits)
  unfolding run
  lookup-run path m [] = refl
  lookup-run path m (c ∷ cs) =
      lookup-run path (step to_string m c) cs
      ∙ ap (λ z. own_run z path cs (Map.lookup path (step to_string m c).circuits))
          (config-step m c)
      ∙ ap (own_run m.config path cs) (lookup-step path m c)

-- What holds of a circuit, where there is one.
abbrev pub IsSoundIf : CircuitBreakerConfig → Option CircuitBreakerState → Type 0
IsSoundIf config o = elim o [ none ↦ Unit | some cb ↦ IsSound config cb ]

module _ (config : CircuitBreakerConfig) (fails' : 1 ≤ config.failure_threshold)
    (succeeds' : 1 ≤ config.success_threshold) where
  or_default-IsSound :
      (o : Option CircuitBreakerState)
      → IsSoundIf config o
      → IsSound config (or_default new_circuit o)
  or_default-IsSound none h = omega arith
  or_default-IsSound (some cb) h = h

  own_step-IsSound :
      (path : String) (c : Call) (o : Option CircuitBreakerState)
      → IsSoundIf config o
      → IsSoundIf config (own_step config path c o)
  own_step-IsSound path (executes now ctx) o h =
      let h' =
        probed-IsSound config fails' succeeds' now (or_default new_circuit o)
          (or_default-IsSound o h) in
      if-both (IsSoundIf config) (ctx.path == path)
        (if-both (IsSoundIf config) (covers config ctx.path) h' h) h
  own_step-IsSound path (succeeds p) none h = if-both (IsSoundIf config) (p == path) tt tt
  own_step-IsSound path (succeeds p) (some cb) h =
      if-both (IsSoundIf config) (p == path) (succeeded-IsSound config fails' succeeds' cb h) h
  own_step-IsSound path (fails p now) o h =
      let h' =
        failed-IsSound config fails' succeeds' now (or_default new_circuit o)
          (or_default-IsSound o h) in
      if-both (IsSoundIf config) (p == path) h' h

  own_run-IsSound :
      (path : String) (cs : List Call) (o : Option CircuitBreakerState)
      → IsSoundIf config o
      → IsSoundIf config (own_run config path cs o)
  own_run-IsSound path [] o h = h
  own_run-IsSound path (c ∷ cs) o h = own_run-IsSound path cs _ (own_step-IsSound path c o h)

-- With thresholds of at least 1, after any history that starts with no circuits, every circuit is
-- sound: a closed one has fewer failures than the failure threshold, an open one has the time of its
-- last failure (so that it can time out), and a half-open one has fewer successes than the success
-- threshold.
pub lookup-run-IsSound :
    (to_string : ℕ → String) (config : CircuitBreakerConfig) (path : String) (cs : List Call)
    (cb : CircuitBreakerState)
    → 1 ≤ config.failure_threshold
    → 1 ≤ config.success_threshold
    → Map.lookup path (run to_string (new config) cs).circuits ≡ some cb
    → IsSound config cb
unfolding Map.lookup
lookup-run-IsSound to_string config path cs cb f s h =
    subst (IsSoundIf config) (sym (lookup-run to_string path (new config) cs) ∙ h)
      (own_run-IsSound config f s path cs none tt)
