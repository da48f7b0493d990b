-- ===== src/Core/Reload.antt =====
-- src/core/reload.rs: the health of the process, its probes, and the drain before a reload.
-- `wait_for_drain` is two steps, the look at the counter and `notified()` with the timer, and what
-- wakes it is `notify_waiters` (tokio::sync::Notify: it wakes the waiters that are registered and
-- keeps nothing for later ones) or the timer. One caller waits. Times are natural numbers of
-- nanoseconds. The counter in flight is a u64 that wraps.
mod Drain
mod Tests
use hypern.Prelude.{
  ℕ, ◌+◌, ◌-◌, ◌*◌, ◌%◌, ◌^◌, String, Bool, true, false, ◌&&◌, List, [], ◌∷◌, ◌++◌, leb, eqb,
  if◌then◌else◌,
}

pub data HealthStatus : Type 0 where
  starting healthy draining unhealthy : HealthStatus

-- `s as u8`
abbrev pub as_u8 : HealthStatus → ℕ
as_u8 starting = 0
as_u8 healthy = 1
as_u8 draining = 2
as_u8 unhealthy = 3

abbrev pub from_u8 : ℕ → HealthStatus
from_u8 v =
    if eqb v 0
    then starting
    else if eqb v 1
    then healthy
    else if eqb v 2
    then draining
    else unhealthy

abbrev as_str : HealthStatus → String
as_str starting = "starting"
as_str healthy = "healthy"
as_str draining = "draining"
as_str unhealthy = "unhealthy"

abbrev pub is_live : HealthStatus → Bool
is_live unhealthy = false
is_live _ = true

abbrev pub is_ready : HealthStatus → Bool
is_ready healthy = true
is_ready _ = false

pub record HealthCheck : Type 0 where
  pub status_code : ℕ
  pub in_flight : ℕ
  pub custom_checks : List String

-- HealthCheck::new
abbrev pub new_health : HealthCheck
new_health = record { status_code = as_u8 starting; in_flight = 0; custom_checks = [] }

abbrev pub status : HealthCheck → HealthStatus
status h = from_u8 h.status_code

abbrev pub set_status : HealthStatus → HealthCheck → HealthCheck
set_status s h = record h { status_code = as_u8 s }

abbrev pub mark_healthy : HealthCheck → HealthCheck
mark_healthy = set_status healthy

abbrev pub mark_draining : HealthCheck → HealthCheck
mark_draining = set_status draining

abbrev pub mark_unhealthy : HealthCheck → HealthCheck
mark_unhealthy = set_status unhealthy

-- fetch_add on a u64; the answer is the counter after it.
abbrev pub increment_in_flight : HealthCheck → HealthCheck × ℕ
increment_in_flight h = (record h { in_flight = (h.in_flight + 1) % 2 ^ 64 }, h.in_flight + 1)

-- fetch_sub on a u64 wraps at zero; the answer does not.
abbrev pub decrement_in_flight : HealthCheck → HealthCheck × ℕ
decrement_in_flight h =
    (record h { in_flight = (h.in_flight + (2 ^ 64 - 1)) % 2 ^ 64 }, h.in_flight - 1)

abbrev add_custom_check : String → HealthCheck → HealthCheck
add_custom_check name h = record h { custom_checks = h.custom_checks ++ name ∷ [] }

abbrev pub liveness_code : HealthCheck → ℕ
liveness_code h = if is_live (status h) then 200 else 503

abbrev pub readiness_code : HealthCheck → ℕ
readiness_code h = if is_ready (status h) then 200 else 503

abbrev pub startup_code : HealthCheck → ℕ
startup_code h = elim (status h) [ starting ↦ 503 | _ ↦ 200 ]

pub record ReloadConfig : Type 0 where
  pub drain_timeout_secs : ℕ
  pub health_poll_interval_ms : ℕ
  pub startup_grace_secs : ℕ
  pub health_probes_enabled : Bool
  pub health_path_prefix : String

-- ReloadConfig::default
abbrev pub default_config : ReloadConfig
default_config = record {
  drain_timeout_secs = 30;
  health_poll_interval_ms = 100;
  startup_grace_secs = 2;
  health_probes_enabled = true;
  health_path_prefix = "/_health";
}

pub data ReloadSignal : Type 0 where
  nothing graceful hot shutdown : ReloadSignal

-- Where the caller of `wait_for_drain` stands: not in it, past its look at the counter, at the
-- `select!` until a time, or returned.
pub data Waiter : Type 0 where
  outside looked : Waiter
  waiting : ℕ → Waiter
  returned : Bool → Waiter

pub record ReloadManager : Type 0 where
  pub config : ReloadConfig
  pub health : HealthCheck
  pub signal : ReloadSignal
  pub is_draining : Bool
  pub waiter : Waiter

-- ReloadManager::new
abbrev pub new : ReloadConfig → ReloadManager
new config = record {
  config = config;
  health = new_health;
  signal = nothing;
  is_draining = false;
  waiter = outside;
}

abbrev signal_graceful_reload : ReloadManager → ReloadManager
signal_graceful_reload m = record m { signal = graceful }

abbrev signal_hot_reload : ReloadManager → ReloadManager
signal_hot_reload m = record m { signal = hot }

abbrev signal_shutdown : ReloadManager → ReloadManager
signal_shutdown m = record m { signal = shutdown }

-- The exchange succeeds only where no drain has begun.
unfoldable pub start_drain : ReloadManager → ReloadManager
start_drain m =
    if m.is_draining then m else record m { is_draining = true; health = mark_draining m.health }

-- `notify_waiters`
abbrev pub notify_waiters : Waiter → Waiter
notify_waiters (waiting deadline) = returned true
notify_waiters w = w

-- A request begins.
unfoldable pub on_request_start : ReloadManager → ReloadManager
on_request_start m = record m { health = (increment_in_flight m.health).0 }

unfoldable pub on_request_complete : ReloadManager → ReloadManager
on_request_complete m =
    let (health, remaining) = decrement_in_flight m.health in
    record m {
      health = health;
      waiter = if m.is_draining && eqb remaining 0 then notify_waiters m.waiter else m.waiter;
    }

-- `wait_for_drain` up to its test.
unfoldable pub look : ReloadManager → ReloadManager
look m = record m { waiter = if eqb m.health.in_flight 0 then returned true else looked }

-- `notified()` and `sleep(timeout)`, for a caller that looked.
unfoldable pub await_drain : ℕ → ReloadManager → ReloadManager
await_drain now m = record m {
  waiter = elim m.waiter [
    | looked ↦ waiting (now + m.config.drain_timeout_secs * 1000000000)
    | w ↦ w
  ];
}

-- The timer.
unfoldable pub expire : ℕ → ReloadManager → ReloadManager
expire now m = record m {
  waiter = elim m.waiter [
    | waiting deadline ↦ if leb deadline now then returned false else waiting deadline
    | w ↦ w
  ];
}

unfoldable pub reset_after_reload : ReloadManager → ReloadManager
reset_after_reload m = record m {
  is_draining = false;
  health = set_status healthy m.health;
  signal = nothing;
}
