-- ===== src/Core/Reload/Tests.antt =====
-- Tests of the drain, and the theorems at concrete inputs.
use hypern.Core.Reload.{
  HealthStatus, starting, healthy, draining, unhealthy, as_u8, from_u8, liveness_code,
  readiness_code, startup_code, ReloadManager, returned, default_config, new, start_drain,
  on_request_start, on_request_complete, look, await_drain, expire, reset_after_reload,
}
use hypern.Core.Reload.Drain.{
  begins, ends, passes, handle, handle_all, wait_for_drain_lem, expire-await_drain,
}
use hypern.Prelude.{◌≡◌, refl, true, false, [], ◌∷◌, arith}

drain : Unit {0}
unfolding start_drain on_request_start on_request_complete look await_drain expire handle handle_all
    reset_after_reload
drain = tt

from_u8_test : (s : HealthStatus) → from_u8 (as_u8 s) ≡ s
from_u8_test starting = refl
from_u8_test healthy = refl
from_u8_test draining = refl
from_u8_test unhealthy = refl

-- One request in flight, the process draining.
abbrev busy : ReloadManager
busy = start_drain (on_request_start (new default_config))

abbrev waited : ReloadManager
waited = await_drain 5 (look busy)

probes_test :
    (readiness_code busy.health ≡ 503)
    × (liveness_code busy.health ≡ 200)
    × (startup_code busy.health ≡ 200)
    × (startup_code (new default_config).health ≡ 503)
unfolding drain
probes_test = (refl, refl, refl, refl)

wrap_test : (on_request_complete (new default_config)).health.in_flight ≡ 18446744073709551615
unfolding drain
wrap_test = refl

wait_for_drain_lem_example :
    (handle_all (begins ∷ ends ∷ passes 7 ∷ ends ∷ []) waited).waiter ≡ returned true
unfolding drain
wait_for_drain_lem_example =
    wait_for_drain_lem (begins ∷ ends ∷ passes 7 ∷ ends ∷ []) waited 30000000005 refl refl
      (omega arith) (omega arith) (omega arith, tt) (omega arith)

expire-await_drain_test :
    let m' = await_drain 5 (on_request_complete (look busy)) in
    (m'.health.in_flight ≡ 0) × ((expire 30000000005 m').waiter ≡ returned false)
unfolding drain
expire-await_drain_test = expire-await_drain busy 5 30000000005 refl refl (omega arith)
