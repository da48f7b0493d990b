-- ===== src/Realtime/Heartbeat/Tests.antt =====
-- Tests of the monitor, and the theorems at concrete inputs.
use hypern.Prelude.{◌≡◌, refl, not, ◌&&◌, none, [], ◌∷◌, arith, elem, string_eq, nat_eq}
use hypern.Prelude.Map
use hypern.Realtime.Heartbeat.{
  HeartbeatMonitor, registers, checks, new, register, ping, pong, check_timeouts, is_alive,
  retry_count, get_dead_clients, evict_dead, step, run,
}
use hypern.Realtime.Heartbeat.Retries.{get_dead_clients-run}
use hypern.Realtime.Heartbeat.Timeouts.{elem-check_timeouts}

abbrev two : HeartbeatMonitor
two = run (new none) (registers "a" none 0 ∷ registers "b" none 60 ∷ [])

monitor : Unit {0}
unfolding run step new register ping pong check_timeouts is_alive retry_count get_dead_clients
    evict_dead Map.insert Map.lookup Map.modify Map.map_entries
monitor = tt

two-Distinct : Map.Distinct two.clients
unfolding monitor
two-Distinct = (refl, (refl, tt))

late_test :
    ((check_timeouts 100 two).1 ≡ "a" ∷ []) × (retry_count "a" (check_timeouts 100 two).0 ≡ 1)
unfolding monitor
late_test = (refl, refl)

get_dead_clients-run_test :
    get_dead_clients (run (new none) (registers "a" none 0 ∷ checks 500 ∷ checks 900 ∷ [])) ≡ []
get_dead_clients-run_test =
    get_dead_clients-run none (registers "a" none 0 ∷ checks 500 ∷ checks 900 ∷ [])
      (unfold new in omega arith)

elem-check_timeouts_test :
    elem "a" (check_timeouts 100 two).1
    ≡ (is_alive "a" two && not (is_alive "a" (check_timeouts 100 two).0))
elem-check_timeouts_test = elem-check_timeouts "a" 100 two two-Distinct
