-- ===== src/Middleware/Circuit/Tests.antt =====
-- Tests of the circuit breaker, and the theorems at concrete inputs.
use hypern.Prelude.{ℕ, ◌<◌, String, ◌≡◌, refl, none, some, [], ◌∷◌, arith, string_eq, nat_eq}
use hypern.Prelude.Map
use hypern.Middleware.Context.{MiddlewareContext, response, get, new_context}
use hypern.Middleware.Circuit.{
  CircuitBreakerConfig, CircuitBreakerMiddleware, executes, succeeds, fails, closed, opened,
  half_open, new_circuit, new, get_circuit, get_state, get_failure_count, record_success,
  record_failure, succeeded, failed, probed, admission, execute, step, run, refusal, default_config,
}
use hypern.Middleware.Circuit.States.{own_run, lookup-run, lookup-run-IsSound}
use hypern.Middleware.Circuit.Trips.{fails_at, get_state_fails, execute_refused-run}

breaker : Unit {0}
unfolding step run execute record_success record_failure succeeded failed probed admission
    get_circuit get_state get_failure_count Map.insert Map.lookup Map.modify
breaker = tt

abbrev two_strikes : CircuitBreakerConfig
two_strikes = record default_config { failure_threshold = 2; timeout = 30 }

abbrev shown : ℕ → String
shown n = "30"

abbrev request : MiddlewareContext
request = new_context "/a" get [] "" none "id"

abbrev tripped : CircuitBreakerMiddleware
tripped = run shown (new two_strikes) (fails "/a" 5 ∷ fails "/b" 6 ∷ fails "/a" 7 ∷ [])

states_test :
    (get_state "/a" tripped ≡ opened)
    × (get_state "/b" tripped ≡ closed)
    × (get_state "/a" (run shown tripped (executes 37 request ∷ [])) ≡ half_open)
    × (get_state "/a" (run shown tripped (executes 37 request ∷ succeeds "/a" ∷ succeeds "/a" ∷ []))
        ≡ closed)
    × (get_state "/a" (run shown tripped (executes 37 request ∷ succeeds "/a" ∷ fails "/a" 38 ∷ []))
        ≡ opened)
    × (get_failure_count "/b" tripped ≡ 1)
unfolding breaker
states_test = (refl, refl, refl, refl, refl, refl)

lookup-run_example :
    Map.lookup "/b" (run shown (new two_strikes) (fails "/a" 5 ∷ fails "/b" 6 ∷ [])).circuits
    ≡ own_run two_strikes "/b" (fails "/a" 5 ∷ fails "/b" 6 ∷ []) none
unfolding Map.lookup
lookup-run_example = lookup-run shown "/b" (new two_strikes) (fails "/a" 5 ∷ fails "/b" 6 ∷ [])

lookup-run-IsSound_example : 1 < 2
unfolding breaker
lookup-run-IsSound_example =
    lookup-run-IsSound shown two_strikes "/b" (fails "/a" 5 ∷ fails "/b" 6 ∷ fails "/a" 7 ∷ [])
      (record new_circuit { failure_count = 1 }) (omega arith) (omega arith) refl

get_state_fails_test :
    get_state "/a" (run shown (new two_strikes) (fails_at "/a" (5 ∷ 7 ∷ []))) ≡ opened
get_state_fails_test = get_state_fails shown two_strikes "/a" (5 ∷ 7 ∷ []) (omega arith)

execute_refused-run_example :
    (execute shown 36 request (run shown tripped (succeeds "/a" ∷ fails "/a" 20 ∷ []))).1
    ≡ (response (refusal shown two_strikes), request)
unfolding breaker
execute_refused-run_example =
    execute_refused-run shown tripped
      (record { state = opened; failure_count = 2; success_count = 0; last_failure_at = some 7 }) 7
      (succeeds "/a" ∷ fails "/a" 20 ∷ []) 36 request refl refl refl
      (tt, ((omega arith, omega arith), tt)) (omega arith, omega arith) refl
