-- ===== src/Realtime/Heartbeat.antt =====
-- src/realtime/heartbeat.rs: liveness of connected clients by pings and pongs.
-- Each method is one atomic step on the monitor; `now_secs()` is an argument. Times are natural
-- numbers of one unit (the source has `f64` seconds), and `now - t > d` is written `t + d < now`.
-- Counters do not wrap.
mod Retries
mod Timeouts
mod Tests
use hypern.Prelude.{
  ℕ, ◌+◌, String, Bool, true, false, not, ◌&&◌, Option, none, some, List, [], ◌∷◌, ltb,
  if◌then◌else◌, or_default, length, string_eq, nat_eq,
}
use hypern.Prelude.Map
use hypern.Prelude.Map.{Map}

pub record HeartbeatConfig : Type 0 where
  pub interval_secs : ℕ
  pub timeout_secs : ℕ
  pub max_retries : ℕ
  pub sse_retry_ms : ℕ
  pub send_keepalive : Bool

abbrev pub default_config : HeartbeatConfig
default_config = record {
  interval_secs = 30;
  timeout_secs = 90;
  max_retries = 5;
  sse_retry_ms = 3000;
  send_keepalive = true;
}

pub record ClientHeartbeat : Type 0 where
  pub last_ping : ℕ
  pub last_pong : ℕ
  pub retry_count : ℕ
  pub is_alive : Bool
  pub last_event_id : Option String

pub record HeartbeatMonitor : Type 0 where
  pub config : HeartbeatConfig
  pub clients : Map String ClientHeartbeat
  pub total_pings : ℕ
  pub total_pongs : ℕ
  pub total_timeouts : ℕ

-- HeartbeatMonitor::new
unfoldable pub new : Option HeartbeatConfig → HeartbeatMonitor
new config = record {
  config = or_default default_config config;
  clients = [];
  total_pings = 0;
  total_pongs = 0;
  total_timeouts = 0;
}

-- The entry that `register` stores.
abbrev pub registered : Option String → ℕ → ClientHeartbeat
registered last_event_id now = record {
  last_ping = now;
  last_pong = now;
  retry_count = 0;
  is_alive = true;
  last_event_id = last_event_id;
}

unfoldable pub register : String → Option String → ℕ → HeartbeatMonitor → HeartbeatMonitor
register client_id last_event_id now m = record m {
  clients = Map.insert client_id (registered last_event_id now) m.clients;
}

unfoldable pub unregister : String → HeartbeatMonitor → HeartbeatMonitor × Bool
unregister client_id m =
    (record m { clients = Map.remove client_id m.clients }, Map.contains_key client_id m.clients)

unfoldable pub ping : String → ℕ → HeartbeatMonitor → HeartbeatMonitor × Bool
ping client_id now m =
    if Map.contains_key client_id m.clients
    then (
      record m {
        clients = Map.modify client_id (λ c. record c { last_ping = now }) m.clients;
        total_pings = m.total_pings + 1;
      },
      true,
    )
    else (m, false)

abbrev pub answered : ℕ → ClientHeartbeat → ClientHeartbeat
answered now c = record c { last_pong = now; retry_count = 0; is_alive = true }

unfoldable pub pong : String → ℕ → HeartbeatMonitor → HeartbeatMonitor × Bool
pong client_id now m =
    if Map.contains_key client_id m.clients
    then (
      record m {
        clients = Map.modify client_id (answered now) m.clients;
        total_pongs = m.total_pongs + 1;
      },
      true,
    )
    else (m, false)

-- The test and the body of the loop of `check_timeouts`, on one entry.
abbrev pub newly_late : ℕ → ℕ → ClientHeartbeat → Bool
newly_late now timeout c = ltb (c.last_pong + timeout) now && c.is_alive

abbrev pub mark_late : ℕ → ℕ → ClientHeartbeat → ClientHeartbeat
mark_late now timeout c =
    if newly_late now timeout c
    then record c { is_alive = false; retry_count = c.retry_count + 1 }
    else c

-- The keys that the loop pushes to `timed_out`.
unfoldable pub keys_where : (ClientHeartbeat → Bool) → Map String ClientHeartbeat → List String
keys_where p [] = []
keys_where p ((k, c) ∷ m) = let rest = keys_where p m in if p c then k ∷ rest else rest

unfoldable pub check_timeouts : ℕ → HeartbeatMonitor → HeartbeatMonitor × List String
unfolding keys_where
check_timeouts now m =
    let timeout = m.config.timeout_secs in
    let timed_out = keys_where (newly_late now timeout) m.clients in
    (
      record m {
        clients = Map.map_entries (λ _ c. mark_late now timeout c) m.clients;
        total_timeouts = m.total_timeouts + length timed_out;
      },
      timed_out,
    )

unfoldable pub is_timed_out : String → HeartbeatMonitor → Bool
is_timed_out client_id m = elim (Map.lookup client_id m.clients) [
  | none ↦ true
  | some c ↦ not c.is_alive
]

unfoldable pub is_alive : String → HeartbeatMonitor → Bool
is_alive client_id m = elim (Map.lookup client_id m.clients) [ none ↦ false | some c ↦ c.is_alive ]

unfoldable pub get_dead_clients : HeartbeatMonitor → List String
unfolding keys_where
get_dead_clients m = keys_where (λ c. ltb m.config.max_retries c.retry_count) m.clients

remove_all : List String → Map String ClientHeartbeat → Map String ClientHeartbeat
remove_all [] m = m
remove_all (k ∷ ks) m = remove_all ks (Map.remove k m)

unfoldable pub evict_dead : HeartbeatMonitor → HeartbeatMonitor × List String
unfolding remove_all
evict_dead m =
    let dead = get_dead_clients m in (record m { clients = remove_all dead m.clients }, dead)

unfoldable pub set_last_event_id : String → String → HeartbeatMonitor → HeartbeatMonitor × Bool
set_last_event_id client_id event_id m =
    if Map.contains_key client_id m.clients
    then (
      record m {
        clients = Map.modify client_id (λ c. record c { last_event_id = some event_id }) m.clients;
      },
      true,
    )
    else (m, false)

unfoldable pub get_last_event_id : String → HeartbeatMonitor → Option String
get_last_event_id client_id m = elim (Map.lookup client_id m.clients) [
  | none ↦ none
  | some c ↦ c.last_event_id
]

unfoldable pub clients_needing_ping : ℕ → HeartbeatMonitor → List String
clients_needing_ping now m =
    keys_where (λ c. c.is_alive && ltb (c.last_ping + m.config.interval_secs) now) m.clients

unfoldable pub retry_count : String → HeartbeatMonitor → ℕ
retry_count client_id m = elim (Map.lookup client_id m.clients) [
  | none ↦ 0
  | some c ↦ c.retry_count
]

pub record HeartbeatStats : Type 0 where
  pub monitored_clients : ℕ
  pub total_pings : ℕ
  pub total_pongs : ℕ
  pub total_timeouts : ℕ
  pub timed_out_clients : ℕ

unfoldable pub stats : ℕ → HeartbeatMonitor → HeartbeatStats
stats now m = record {
  monitored_clients = length m.clients;
  total_pings = m.total_pings;
  total_pongs = m.total_pongs;
  total_timeouts = m.total_timeouts;
  timed_out_clients =
      length (keys_where (λ c. ltb (c.last_pong + m.config.timeout_secs) now) m.clients);
}

unfoldable pub clear : HeartbeatMonitor → HeartbeatMonitor
clear m = record m { clients = [] }

-- The calls that change the state, and a history of them. Each carries its own clock reading.
pub data Call : Type 0 where
  registers : String → Option String → ℕ → Call
  unregisters : String → Call
  pings pongs : String → ℕ → Call
  checks : ℕ → Call
  evicts clears : Call
  sets_event : String → String → Call

unfoldable pub step : HeartbeatMonitor → Call → HeartbeatMonitor
step m (registers c e now) = register c e now m
step m (unregisters c) = (unregister c m).0
step m (pings c now) = (ping c now m).0
step m (pongs c now) = (pong c now m).0
step m (checks now) = (check_timeouts now m).0
step m evicts = (evict_dead m).0
step m clears = clear m
step m (sets_event c e) = (set_last_event_id c e m).0

unfoldable pub run : HeartbeatMonitor → List Call → HeartbeatMonitor
run m [] = m
run m (c ∷ cs) = run (step m c) cs
