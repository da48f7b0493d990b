-- ===== src/Middleware/RateLimit/Tests.antt =====
-- Tests of the rate limiter, and the theorems at concrete inputs.
use hypern.Prelude.{
  ℕ, ◌+◌, ◌-◌, ◌*◌, ◌/◌, ◌≤◌, String, ◌≡◌, refl, sym, subst, ◌↔◌, true, none, some, [], ◌∷◌, arith,
  leb, if◌then◌else◌, string_eq, nat_eq,
}
use hypern.Prelude.Map
use hypern.Middleware.Context.{get_header, MiddlewareContext, continue, get, new_context}
use hypern.Middleware.RateLimit.{
  Floats, RateLimitConfig, RateLimitState, fixed_window, default_config, new, new_state,
  check_fixed_window, check_sliding_window, check, get_client_key, forwarded_key, execute,
}
use hypern.Middleware.RateLimit.Windows.{
  granted, Halves, granted-fixed_window-le, granted-sliding_window,
}
use hypern.Middleware.RateLimit.Clients.{execute_lem}

limiter : Unit {0}
unfolding check_fixed_window check_sliding_window check get_client_key forwarded_key execute
    Map.insert Map.lookup
limiter = tt

-- Numbers in thousandths, in the place of `f64`.
abbrev thousandths : Floats
thousandths = record {
  F64 = ℕ;
  as_f64 = λ n. n * 1000;
  as_secs = λ n. n * 1000;
  as_u64 = λ x. x / 1000;
  plus = λ x y. x + y;
  minus = λ x y. x - y;
  times = λ x y. x * y / 1000;
  over = λ x y. x * 1000 / y;
  least = λ x y. if leb x y then x else y;
  at_most = leb;
}

abbrev pairs : RateLimitConfig thousandths
pairs = record (default_config thousandths) {
  max_requests = 2;
  window = 2;
  algorithm = fixed_window;
}

abbrev at_zero : RateLimitState thousandths
at_zero = new_state thousandths 0

burst_test : granted (check_fixed_window thousandths pairs) (1 ∷ 1 ∷ 1 ∷ 2 ∷ 2 ∷ 2 ∷ []) at_zero ≡ 4
unfolding limiter
burst_test = refl

granted-fixed_window-le_example :
    granted (check_fixed_window thousandths pairs) (1 ∷ 2 ∷ []) at_zero ≤ 4
granted-fixed_window-le_example =
    granted-fixed_window-le thousandths pairs 1 (1 ∷ 2 ∷ []) at_zero (omega arith)
      ((omega arith, omega arith), ((omega arith, omega arith), tt))

halves_at_one : (count : ℕ) → count ≤ 2 → 2 * (count * 1000 * 500 / 1000 / 1000) ≤ count
halves_at_one count h = omega arith

pairs-Halves : Halves thousandths pairs
pairs-Halves count elapsed c e h =
    let one : elapsed ≡ 1 = omega arith in
    subst (λ z. 2 * (count * 1000 * (1000 - z * 1000 * 1000 / 2000) / 1000 / 1000) ≤ count)
      (sym one) (halves_at_one count c)

granted-sliding_window_test :
    granted (check_sliding_window thousandths pairs) (1 ∷ 1 ∷ 1 ∷ 1 ∷ []) at_zero ≡ 4
granted-sliding_window_test =
    granted-sliding_window thousandths pairs (1 ∷ 1 ∷ 1 ∷ 1 ∷ []) at_zero pairs-Halves (omega arith)
      (omega arith)
      (
        (omega arith, omega arith),
        (
          (omega arith, omega arith),
          ((omega arith, omega arith), ((omega arith, omega arith), tt)),
        ),
      )

abbrev same : String → String
same s = s

abbrev shown : ℕ → String
shown n = "n"

abbrev request : MiddlewareContext
request = new_context "/a" get (("x-real-ip", "ann") ∷ []) "" none "id"

execute_lem_test :
    (((execute thousandths same same shown 5 request (new thousandths pairs)).1.0 ≡ continue)
      ↔ (true ≡ true))
    × (Map.lookup "ann"
          (execute thousandths same same shown 5 request (new thousandths pairs)).0.clients
        ≡ some (record (new_state thousandths 5) { count = 1 }))
unfolding limiter get_header
execute_lem_test =
    execute_lem thousandths same same shown 5 request (new thousandths pairs) "ann" refl
