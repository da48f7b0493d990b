-- ===== src/Middleware/RateLimit.antt =====
-- src/middleware/builtin.rs, `RateLimitMiddleware`: a request budget for each client.
-- `Instant::now()` is an argument and times are natural numbers of nanoseconds. The arithmetic of `f64`
-- is a parameter, `Floats`, and so are `trim`, `to_lowercase` and the printing of numbers. A
-- client's state is behind an `Arc` and is never removed from the table, so a write through the
-- `Arc` is a change of the table's entry. The counter does not wrap; `max_requests - 1` does, as in a
-- build without overflow checks.
mod Windows
mod Clients
mod Tests
use text.Mathlib.Text.{starts_with}
use hypern.Prelude.{
  ℕ, ◌+◌, ◌-◌, ◌/◌, ◌%◌, String, Bool, true, false, Option, none, some, List, [], ◌∷◌, leb,
  if◌then◌else◌, or_default, any, string_eq, nat_eq,
}
use hypern.Prelude.Map
use hypern.Prelude.Map.{Map}
use hypern.Prelude.Text.{split}
use hypern.Middleware.Context.{
  MiddlewareResponse, MiddlewareResult, continue, response, MiddlewareContext, get_header,
  add_response_header, too_many_requests, with_header,
}

-- What the code uses of `f64` and `Duration::as_secs_f64`.
pub record Floats : Type 1 where
  pub F64 : Type 0
  pub as_f64 : ℕ → F64
  pub as_secs : ℕ → F64
  pub as_u64 : F64 → ℕ
  pub plus : F64 → F64 → F64
  pub minus : F64 → F64 → F64
  pub times : F64 → F64 → F64
  pub over : F64 → F64 → F64
  pub least : F64 → F64 → F64
  pub at_most : F64 → F64 → Bool

module _ (fl : Floats) where
  pub data RateLimitAlgorithm : Type 0 where
    fixed_window sliding_window : RateLimitAlgorithm
    token_bucket : ℕ → fl.F64 → RateLimitAlgorithm

  pub record RateLimitConfig : Type 0 where
    pub max_requests : ℕ
    pub window : ℕ
    pub algorithm : RateLimitAlgorithm
    pub key_header : Option String
    pub skip_paths : List String

  -- RateLimitConfig::default
  abbrev pub default_config : RateLimitConfig
  default_config = record {
    max_requests = 100;
    window = 60000000000;
    algorithm = sliding_window;
    key_header = none;
    skip_paths = "/health" ∷ "/metrics" ∷ [];
  }

  pub record RateLimitState : Type 0 where
    pub count : ℕ
    pub window_start : ℕ
    pub tokens : fl.F64
    pub last_refill : ℕ

  -- RateLimitState::new
  abbrev pub new_state : ℕ → RateLimitState
  new_state now = record { count = 0; window_start = now; tokens = fl.as_f64 0; last_refill = now }

  -- `self.config.max_requests as u64 - 1`
  abbrev pub one_less : ℕ → ℕ
  one_less n = (n + 18446744073709551615) % 18446744073709551616

  unfoldable pub check_fixed_window :
      RateLimitConfig → ℕ → RateLimitState → RateLimitState × (Bool × ℕ)
  check_fixed_window config now s =
      if leb config.window (now - s.window_start)
      then (record s { window_start = now; count = 1 }, (true, one_less config.max_requests))
      else let count = s.count + 1 in
        (record s { count = count }, (leb count config.max_requests, config.max_requests - count))

  -- `(prev_count as f64 * (1.0 - window_ratio)) as u64`
  abbrev pub weighted_count : ℕ → ℕ → ℕ → ℕ
  weighted_count prev_count elapsed window =
      let window_ratio = fl.over (fl.as_secs elapsed) (fl.as_secs window) in
      fl.as_u64 (fl.times (fl.as_f64 prev_count) (fl.minus (fl.as_f64 1) window_ratio))

  unfoldable pub check_sliding_window :
      RateLimitConfig → ℕ → RateLimitState → RateLimitState × (Bool × ℕ)
  check_sliding_window config now s =
      let elapsed = now - s.window_start in
      if leb config.window elapsed
      then (record s { window_start = now; count = 1 }, (true, one_less config.max_requests))
      else let new_count = weighted_count s.count elapsed config.window + 1 in
        (
          record s { count = new_count },
          (leb new_count config.max_requests, config.max_requests - new_count),
        )

  unfoldable pub check_token_bucket : ℕ → fl.F64 → ℕ → RateLimitState → RateLimitState × (Bool × ℕ)
  check_token_bucket bucket_size refill_rate now s =
      let elapsed = fl.as_secs (now - s.last_refill) in
      let tokens =
        fl.least (fl.plus s.tokens (fl.times elapsed refill_rate)) (fl.as_f64 bucket_size) in
      let left = fl.minus tokens (fl.as_f64 1) in
      if fl.at_most (fl.as_f64 1) tokens
      then (record s { tokens = left; last_refill = now }, (true, fl.as_u64 left))
      else (record s { tokens = tokens; last_refill = now }, (false, 0))

  -- The `match` of `execute`.
  unfoldable pub check : RateLimitConfig → ℕ → RateLimitState → RateLimitState × (Bool × ℕ)
  unfolding check_fixed_window check_sliding_window check_token_bucket
  check config now s = elim config.algorithm [
    | fixed_window ↦ check_fixed_window config now s
    | sliding_window ↦ check_sliding_window config now s
    | token_bucket bucket_size refill_rate ↦ check_token_bucket bucket_size refill_rate now s
  ]

  pub record RateLimitMiddleware : Type 0 where
    pub config : RateLimitConfig
    pub clients : Map String RateLimitState

  -- RateLimitMiddleware::new
  abbrev pub new : RateLimitConfig → RateLimitMiddleware
  new config = record { config = config; clients = [] }

  module _ (to_lowercase trim : String → String) (to_string : ℕ → String) where
    -- The first part of `X-Forwarded-For`, up to its first comma (character 44).
    abbrev first_part : String → String
    first_part xff = elim (split 44 xff) [ [] ↦ "unknown" | part ∷ parts ↦ part ]

    -- The part of `get_client_key` after the configured header.
    unfoldable pub forwarded_key : MiddlewareContext → String
    forwarded_key ctx = elim (get_header to_lowercase "x-forwarded-for" ctx) [
      | some xff ↦ trim (first_part xff)
      | none ↦ or_default "unknown" (get_header to_lowercase "x-real-ip" ctx)
    ]

    unfoldable pub get_client_key : RateLimitConfig → MiddlewareContext → String
    unfolding forwarded_key
    get_client_key config ctx = elim config.key_header [
      | none ↦ forwarded_key ctx
      | some header ↦ or_default (forwarded_key ctx) (get_header to_lowercase header ctx)
    ]

    abbrev pub with_limit_headers : RateLimitConfig → ℕ → MiddlewareContext → MiddlewareContext
    with_limit_headers config remaining ctx =
        add_response_header "X-RateLimit-Reset" (to_string (config.window / 1000000000)) (
          add_response_header "X-RateLimit-Remaining" (to_string remaining)
            (add_response_header "X-RateLimit-Limit" (to_string config.max_requests) ctx))

    abbrev pub refusal : RateLimitConfig → MiddlewareResponse
    refusal config =
        with_header "Retry-After" (to_string (config.window / 1000000000))
          (too_many_requests "Rate limit exceeded")

    abbrev pub skips : RateLimitConfig → String → Bool
    skips config path = any (λ p. starts_with path p) config.skip_paths

    unfoldable pub execute :
        ℕ
        → MiddlewareContext
        → RateLimitMiddleware
        → RateLimitMiddleware × (MiddlewareResult × MiddlewareContext)
    unfolding check get_client_key
    execute now ctx m =
        let key = get_client_key m.config ctx in
        let state = or_default (new_state now) (Map.lookup key m.clients) in
        let (state', (allowed, remaining)) = check m.config now state in
        let m' = record m { clients = Map.insert key state' m.clients } in
        let ctx' = with_limit_headers m.config remaining ctx in
        if skips m.config ctx.path
        then (m, (continue, ctx))
        else (if allowed then (m', (continue, ctx')) else (
          m',
          (
            response (refusal m.config),
            add_response_header "Retry-After" (to_string (m.config.window / 1000000000)) ctx',
          ),
        ))
