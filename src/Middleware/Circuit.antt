-- ===== src/Middleware/Circuit.antt =====
-- src/middleware/builtin.rs, `CircuitBreakerMiddleware`: one circuit for each path.
-- `Instant::now()` is an argument and times are natural numbers of nanoseconds. A circuit is behind
-- an `Arc` and is never removed from the table, so a write through the `Arc` is a change of the
-- table's entry. Counters do not wrap.
mod States
mod Trips
mod Tests
use text.Mathlib.Text.{starts_with}
use hypern.Prelude.{
  ℕ, ◌+◌, ◌-◌, ◌/◌, String, Bool, false, ◌||◌, Option, none, some, List, [], ◌∷◌, leb,
  if◌then◌else◌, or_default, is_empty, any, string_eq, nat_eq,
}
use hypern.Prelude.Map
use hypern.Prelude.Map.{Map}
use hypern.Middleware.Context.{
  MiddlewareResponse, MiddlewareResult, continue, response, MiddlewareContext, string, set_state,
  service_unavailable, with_header,
}

pub data CircuitState : Type 0 where
  closed opened half_open : CircuitState

pub record CircuitBreakerConfig : Type 0 where
  pub failure_threshold : ℕ
  pub success_threshold : ℕ
  pub timeout : ℕ
  pub paths : List String

-- CircuitBreakerConfig::default
abbrev pub default_config : CircuitBreakerConfig
default_config = record {
  failure_threshold = 5;
  success_threshold = 2;
  timeout = 30000000000;
  paths = [];
}

pub record CircuitBreakerState : Type 0 where
  pub state : CircuitState
  pub failure_count : ℕ
  pub success_count : ℕ
  pub last_failure_at : Option ℕ

-- CircuitBreakerState::new
abbrev pub new_circuit : CircuitBreakerState
new_circuit = record {
  state = closed;
  failure_count = 0;
  success_count = 0;
  last_failure_at = none;
}

pub record CircuitBreakerMiddleware : Type 0 where
  pub config : CircuitBreakerConfig
  pub circuits : Map String CircuitBreakerState

-- CircuitBreakerMiddleware::new
abbrev pub new : CircuitBreakerConfig → CircuitBreakerMiddleware
new config = record { config = config; circuits = [] }

-- `get_circuit`: the table afterwards has the path's circuit.
unfoldable pub get_circuit : String → CircuitBreakerMiddleware → CircuitBreakerMiddleware
get_circuit path m =
    if Map.contains_key path m.circuits
    then m
    else record m { circuits = Map.insert path new_circuit m.circuits }

-- The body of `record_success`, on the circuit.
unfoldable pub succeeded : CircuitBreakerConfig → CircuitBreakerState → CircuitBreakerState
succeeded config cb = elim cb.state [
  | half_open ↦
      let sc = cb.success_count + 1 in
      if leb config.success_threshold sc
      then record cb { state = closed; failure_count = 0; success_count = 0 }
      else record cb { success_count = sc }
  | closed ↦ record cb { failure_count = 0 }
  | opened ↦ cb
]

unfoldable pub record_success : String → CircuitBreakerMiddleware → CircuitBreakerMiddleware
unfolding succeeded
record_success path m = record m { circuits = Map.modify path (succeeded m.config) m.circuits }

-- The body of `record_failure`, on the circuit.
unfoldable pub failed : CircuitBreakerConfig → ℕ → CircuitBreakerState → CircuitBreakerState
failed config now cb = elim cb.state [
  | closed ↦
      let fc = cb.failure_count + 1 in
      if leb config.failure_threshold fc
      then record cb { state = opened; failure_count = fc; last_failure_at = some now }
      else record cb { failure_count = fc }
  | half_open ↦ record cb { state = opened; last_failure_at = some now; success_count = 0 }
  | opened ↦ record cb { last_failure_at = some now }
]

unfoldable pub record_failure : String → ℕ → CircuitBreakerMiddleware → CircuitBreakerMiddleware
unfolding failed
record_failure path now m =
    let m' = get_circuit path m in
    record m' { circuits = Map.modify path (failed m.config now) m'.circuits }

unfoldable pub get_state : String → CircuitBreakerMiddleware → CircuitState
get_state path m = elim (Map.lookup path m.circuits) [ none ↦ closed | some cb ↦ cb.state ]

unfoldable pub get_failure_count : String → CircuitBreakerMiddleware → ℕ
get_failure_count path m = elim (Map.lookup path m.circuits) [
  | none ↦ 0
  | some cb ↦ cb.failure_count
]

-- `should_half_open`
abbrev pub timed_out : CircuitBreakerConfig → ℕ → CircuitBreakerState → Bool
timed_out config now cb = elim cb.last_failure_at [
  | none ↦ false
  | some t ↦ leb config.timeout (now - t)
]

-- What `execute` does to the circuit.
unfoldable pub probed : CircuitBreakerConfig → ℕ → CircuitBreakerState → CircuitBreakerState
probed config now cb = elim cb.state [
  | opened ↦
      if timed_out config now cb then record cb { state = half_open; success_count = 0 } else cb
  | half_open ↦ cb
  | closed ↦ cb
]

-- The text that it stores in the request's state, or that it refuses the request.
unfoldable pub admission : CircuitBreakerConfig → ℕ → CircuitBreakerState → Option String
admission config now cb = elim cb.state [
  | opened ↦ if timed_out config now cb then some "half_open" else none
  | half_open ↦ some "half_open"
  | closed ↦ some "closed"
]

abbrev pub covers : CircuitBreakerConfig → String → Bool
covers config path = is_empty config.paths || any (λ p. starts_with path p) config.paths

-- The calls that change the table, and a history of them. Each carries its clock reading.
pub data Call : Type 0 where
  executes : ℕ → MiddlewareContext → Call
  succeeds : String → Call
  fails : String → ℕ → Call

module _ (to_string : ℕ → String) where
  abbrev pub refusal : CircuitBreakerConfig → MiddlewareResponse
  refusal config =
      with_header "Retry-After" (to_string (config.timeout / 1000000000))
        (service_unavailable "Service temporarily unavailable (circuit open)")

  unfoldable pub execute :
      ℕ
      → MiddlewareContext
      → CircuitBreakerMiddleware
      → CircuitBreakerMiddleware × (MiddlewareResult × MiddlewareContext)
  unfolding probed admission
  execute now ctx m =
      let m' = get_circuit ctx.path m in
      let cb = or_default new_circuit (Map.lookup ctx.path m'.circuits) in
      let m'' = record m' { circuits = Map.modify ctx.path (probed m.config now) m'.circuits } in
      if covers m.config ctx.path
      then elim (admission m.config now cb) [
        | none ↦ (m'', (response (refusal m.config), ctx))
        | some text ↦ (m'', (continue, set_state "circuit_breaker_state" (string text) ctx))
      ]
      else (m, (continue, ctx))

  unfoldable pub step : CircuitBreakerMiddleware → Call → CircuitBreakerMiddleware
  step m (executes now ctx) = (execute now ctx m).0
  step m (succeeds path) = record_success path m
  step m (fails path now) = record_failure path now m

  unfoldable pub run : CircuitBreakerMiddleware → List Call → CircuitBreakerMiddleware
  run m [] = m
  run m (c ∷ cs) = run (step m c) cs
