-- ===== src/Middleware/RateLimit/Clients.antt =====
-- Each client has its own budget.
use hypern.Prelude.{
  ℕ, String, ◌≡◌, ◌↔◌, true, false, some, arith, if◌then◌else◌, ◌==◌, or_default, string_eq, nat_eq,
}
use hypern.Prelude.Map
use hypern.Prelude.Map.{Map}
use hypern.Middleware.Context.{MiddlewareContext, continue}
use hypern.Middleware.RateLimit.{
  Floats, RateLimitMiddleware, new_state, check, get_client_key, skips, execute,
}

module _ (fl : Floats) (to_lowercase trim : String → String) (to_string : ℕ → String) where
  abbrev pub key_of : RateLimitMiddleware fl → MiddlewareContext → String
  key_of m ctx = get_client_key fl to_lowercase trim to_string m.config ctx

  -- On a path that is not skipped, a request goes through exactly when the algorithm lets it, given
  -- the state of its own client (a new state for a client not seen before), and only that client's
  -- state changes.
  pub execute_lem :
      (now : ℕ) (ctx : MiddlewareContext) (m : RateLimitMiddleware fl) (client : String)
      → skips fl to_lowercase trim to_string m.config ctx.path ≡ false
      → let own =
          check fl m.config now
            (or_default (new_state fl now) (Map.lookup (key_of m ctx) m.clients)) in
        (((execute fl to_lowercase trim to_string now ctx m).1.0 ≡ continue) ↔ (own.1.0 ≡ true))
        × (Map.lookup client (execute fl to_lowercase trim to_string now ctx m).0.clients
            ≡ (if key_of m ctx == client then some own.0 else Map.lookup client m.clients))
  unfolding execute
  execute_lem now ctx m client h = (
    ground (arith, h),
    ground (
      arith,
      h,
      Map.lookup-insert (key_of m ctx) client
          (check fl m.config now
            (or_default (new_state fl now) (Map.lookup (key_of m ctx) m.clients))).0
          m.clients,
    ),
  )
