-- ===== src/Realtime/Heartbeat/Retries.antt =====
-- The retry counter of a client, and who can ever be evicted.
use hypern.Prelude.{
  ℕ, ◌≤◌, String, ◌≡◌, refl, true, Option, some, List, [], ◌∷◌, arith, ltb, if◌then◌else◌,
  string_eq, nat_eq,
}
use hypern.Prelude.Map
use hypern.Prelude.Map.{Map}
use hypern.Realtime.Heartbeat.{
  HeartbeatMonitor, HeartbeatConfig, ClientHeartbeat, Call, registered, registers, unregisters,
  pings, pongs, checks, evicts, clears, sets_event, new, register, unregister, ping, pong,
  mark_late, check_timeouts, keys_where, remove_all, get_dead_clients, evict_dead,
  set_last_event_id, clear, step, run,
}

-- A client that is alive has no retry, and a late one has exactly one.
abbrev pub IsFresh : ClientHeartbeat → Type 0
IsFresh c = c.retry_count ≡ (if c.is_alive then 0 else 1)

abbrev pub AllFresh : Map String ClientHeartbeat → Type 0
AllFresh [] = Unit
AllFresh ((k, c) ∷ m) = IsFresh c × AllFresh m

insert-AllFresh :
    (k : String) (c : ClientHeartbeat) (m : Map String ClientHeartbeat)
    → IsFresh c
    → AllFresh m
    → AllFresh (Map.insert k c m)
unfolding Map.insert
insert-AllFresh k c [] h a = (h, tt)
insert-AllFresh k c ((i, d) ∷ m) h a = ground (arith, insert-AllFresh k c m h a.1)

remove-AllFresh :
    (k : String) (m : Map String ClientHeartbeat) → AllFresh m → AllFresh (Map.remove k m)
unfolding Map.remove
remove-AllFresh k [] a = tt
remove-AllFresh k ((i, d) ∷ m) a = ground (arith, remove-AllFresh k m a.1)

modify-AllFresh :
    (k : String) (f : ClientHeartbeat → ClientHeartbeat) (m : Map String ClientHeartbeat)
    → ((c : ClientHeartbeat) → IsFresh c → IsFresh (f c))
    → AllFresh m
    → AllFresh (Map.modify k f m)
unfolding Map.modify
modify-AllFresh k f [] h a = tt
modify-AllFresh k f ((i, d) ∷ m) h a = ground (arith, h d, modify-AllFresh k f m h a.1)

map_entries-AllFresh :
    (f : String → ClientHeartbeat → ClientHeartbeat) (m : Map String ClientHeartbeat)
    → ((k : String) (c : ClientHeartbeat) → IsFresh c → IsFresh (f k c))
    → AllFresh m
    → AllFresh (Map.map_entries f m)
unfolding Map.map_entries
map_entries-AllFresh f [] h a = tt
map_entries-AllFresh f ((i, d) ∷ m) h a = (h i d a.0, map_entries-AllFresh f m h a.1)

remove_all-AllFresh :
    (ks : List String) (m : Map String ClientHeartbeat) → AllFresh m → AllFresh (remove_all ks m)
unfolding remove_all
remove_all-AllFresh [] m a = a
remove_all-AllFresh (k ∷ ks) m a = remove_all-AllFresh ks (Map.remove k m) (remove-AllFresh k m a)

mark_late-IsFresh :
    (now timeout : ℕ) (c : ClientHeartbeat) → IsFresh c → IsFresh (mark_late now timeout c)
mark_late-IsFresh now timeout c h = ground arith

step-AllFresh : (m : HeartbeatMonitor) (c : Call) → AllFresh m.clients → AllFresh (step m c).clients
unfolding step register unregister ping pong check_timeouts evict_dead set_last_event_id clear
step-AllFresh m (registers c e now) a = insert-AllFresh c (registered e now) m.clients refl a
step-AllFresh m (unregisters c) a = remove-AllFresh c m.clients a
step-AllFresh m (pings c now) a =
    ground (arith, modify-AllFresh c (λ d. record d { last_ping = now }) m.clients (λ d h. h) a)
step-AllFresh m (pongs c now) a = ground (
  arith,
  modify-AllFresh c (λ d. record d { last_pong = now; retry_count = 0; is_alive = true }) m.clients
      (λ d h. refl) a,
)
step-AllFresh m (checks now) a =
    map_entries-AllFresh _ m.clients (λ _ c h. mark_late-IsFresh now m.config.timeout_secs c h) a
step-AllFresh m evicts a = remove_all-AllFresh (get_dead_clients m) m.clients a
step-AllFresh m clears a = tt
step-AllFresh m (sets_event c e) a =
    ground
      (arith, modify-AllFresh c (λ d. record d { last_event_id = some e }) m.clients (λ d h. h) a)

run-AllFresh :
    (m : HeartbeatMonitor) (cs : List Call) → AllFresh m.clients → AllFresh (run m cs).clients
unfolding run
run-AllFresh m [] a = a
run-AllFresh m (c ∷ cs) a = run-AllFresh (step m c) cs (step-AllFresh m c a)

config-step : (m : HeartbeatMonitor) (c : Call) → (step m c).config ≡ m.config
unfolding step register unregister ping pong check_timeouts evict_dead set_last_event_id clear
config-step m (pings c now) = ground arith
config-step m (pongs c now) = ground arith
config-step m (sets_event c e) = ground arith
config-step m _ = refl

config-run : (m : HeartbeatMonitor) (cs : List Call) → (run m cs).config ≡ m.config
unfolding run
config-run m [] = refl
config-run m (c ∷ cs) = ground (arith, config-run (step m c) cs, config-step m c)

none_dead :
    (limit : ℕ) (m : Map String ClientHeartbeat)
    → 1 ≤ limit
    → AllFresh m
    → keys_where (λ c. ltb limit c.retry_count) m ≡ []
unfolding keys_where
none_dead limit [] h a = refl
none_dead limit ((k, c) ∷ m) h a = ground (arith, none_dead limit m h a.1)

-- With `max_retries` at least 1, as in the default, no history of calls ever makes a client dead:
-- `get_dead_clients` is empty after any calls on a new monitor.
pub get_dead_clients-run :
    (config : Option HeartbeatConfig) (calls : List Call)
    → 1 ≤ (new config).config.max_retries
    → get_dead_clients (run (new config) calls) ≡ []
unfolding new get_dead_clients
get_dead_clients-run config calls h =
    none_dead _ _ (rw config-run h) (run-AllFresh (new config) calls tt)
