-- ===== src/Realtime/Heartbeat/Timeouts.antt =====
-- Which clients `check_timeouts` reports, and when.
use hypern.Prelude.{
  ℕ, ◌+◌, String, ◌≡◌, refl, ap, Bool, true, false, not, ◌&&◌, none, [], ◌∷◌, arith, eq_iff,
  eq_refl, ltb, is_some, elem, string_eq, nat_eq,
}
use hypern.Prelude.Map
use hypern.Prelude.Map.{
  Map, kept_if, lookup-map_entries, lookup-modify, Distinct, map_entries-Distinct,
}
use hypern.Realtime.Heartbeat.{
  HeartbeatMonitor, ClientHeartbeat, answered, pong, newly_late, mark_late, keys_where,
  check_timeouts, is_alive,
}

absent_keys_where :
    (k : String) (p : ClientHeartbeat → Bool) (m : Map String ClientHeartbeat)
    → Map.lookup k m ≡ none
    → elem k (keys_where p m) ≡ false
unfolding keys_where Map.lookup
absent_keys_where k p [] h = refl
absent_keys_where k p ((i, c) ∷ m) h = ground (arith, absent_keys_where k p m)

elem-keys_where :
    (k : String) (p : ClientHeartbeat → Bool) (m : Map String ClientHeartbeat)
    → Distinct m
    → elem k (keys_where p m) ≡ is_some (kept_if p (Map.lookup k m))
unfolding keys_where Map.lookup
elem-keys_where k p [] d = refl
elem-keys_where k p ((i, c) ∷ m) d = ground (
  arith,
  elem-keys_where k p m d.1,
  absent_keys_where i p m d.0,
  eq_iff i k,
  λ (q : i ≡ k). ap (λ z. elem z (keys_where p m)) q,
)

-- Where the table holds each client once, `check_timeouts` reports exactly the clients that it turns
-- from alive to dead.
pub elem-check_timeouts :
    (client_id : String) (now : ℕ) (m : HeartbeatMonitor)
    → Distinct m.clients
    → elem client_id (check_timeouts now m).1
      ≡ (is_alive client_id m && not (is_alive client_id (check_timeouts now m).0))
unfolding check_timeouts is_alive
elem-check_timeouts k now m d = ground (
  arith,
  elem-keys_where k (newly_late now m.config.timeout_secs) m.clients d,
  lookup-map_entries k (λ _ c. mark_late now m.config.timeout_secs c) m.clients,
)

-- A client in the table that answers at time `t` is alive after a check, at any time, exactly if the
-- timeout has not passed since `t`, whatever its state was.
pub is_alive-check_timeouts-pong :
    (client_id : String) (t now : ℕ) (m : HeartbeatMonitor)
    → (pong client_id t m).1 ≡ true
    → is_alive client_id (check_timeouts now (pong client_id t m).0).0
      ≡ not (ltb (t + m.config.timeout_secs) now)
unfolding pong check_timeouts is_alive
is_alive-check_timeouts-pong k t now m h = ground (
  arith,
  eq_refl k,
  lookup-modify k k (answered t) m.clients,
  lookup-map_entries k (λ _ c. mark_late now m.config.timeout_secs c)
      (Map.modify k (answered t) m.clients),
)

-- Where the table holds each client once, a client that a check reported is not reported again by
-- the next check, at any time.
pub check_timeouts_once :
    (client_id : String) (now later : ℕ) (m : HeartbeatMonitor)
    → Distinct m.clients
    → elem client_id (check_timeouts now m).1 ≡ true
    → elem client_id (check_timeouts later (check_timeouts now m).0).1 ≡ false
check_timeouts_once k now later m d h = ground (
  arith,
  elem-check_timeouts k now m d,
  elem-check_timeouts k later (check_timeouts now m).0 (
      unfold check_timeouts in
      map_entries-Distinct (λ _ c. mark_late now m.config.timeout_secs c) m.clients d),
)
