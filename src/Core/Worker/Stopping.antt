-- ===== src/Core/Worker/Stopping.antt =====
-- A request that the middleware in front does not let through.
use hypern.Core.Worker.{
  execute_error, Http, HttpResponse, after_before, handle_request_inner, with_middleware,
  context_of,
}
use hypern.Http.Request.{Request}
use hypern.Middleware.Chain.{MiddlewareChain, execute_before}
use hypern.Middleware.Context.{MiddlewareResult, MiddlewareContext, continue, response, error}
use hypern.Routing.Route.{Route}
use hypern.Routing.Router.{Matchit, Router}
use hypern.Prelude.{ℕ, String, ◌≡◌, refl, ◌≢◌, inl, inr, true, Bool-cases, Option-cases, is_empty}

execute_before_none :
    (chain : MiddlewareChain) (ctx : MiddlewareContext)
    → is_empty chain.before ≡ true
    → (execute_before chain ctx).0 ≡ continue
unfolding execute_before
execute_before_none chain ctx e = rw (e, execute_before) refl

module _ (http : Http) {World Other : Type 0} where
  after_before_stopped :
      (chain : MiddlewareChain) (o : MiddlewareResult × MiddlewareContext)
      (k : MiddlewareContext → World → HttpResponse × World)
      (l : MiddlewareContext → Other → HttpResponse × Other) (world : World) (elsewhere : Other)
      → o.0 ≢ continue
      → after_before http chain o k world ≡ ((after_before http chain o l elsewhere).0, world)
  after_before_stopped chain (continue, ctx) k l world elsewhere h = absurd (h refl)
  after_before_stopped chain (response r, ctx) k l world elsewhere h = refl
  after_before_stopped chain (error e, ctx) k l world elsewhere h =
      elim (Option-cases (execute_error chain ctx e).0) [
        | inl n ↦ rw (n, after_before) refl
        | inr (r, q) ↦ rw (q, after_before) refl
      ]

  module _ (mi : Matchit) (to_uppercase to_ascii_uppercase : String → String)
      (handler_hash : Route → ℕ) where
    -- A request that a middleware in front stops, by a response or an error, reaches no handler: the
    -- world that the handlers act on stays as it is, and the answer is the same whatever routes,
    -- handlers and world there are.
    pub handle_request_inner_stopped :
        (chain : MiddlewareChain) (router other : Router mi)
        (http_execute : ℕ → Request → World → HttpResponse × World)
        (http_execute' : ℕ → Request → Other → HttpResponse × Other) (req : Request)
        (request_id : String) (world : World) (elsewhere : Other)
        → (execute_before chain (context_of to_ascii_uppercase req request_id)).0 ≢ continue
        → handle_request_inner http mi to_uppercase to_ascii_uppercase handler_hash http_execute
            chain router req request_id world
          ≡ (
            (handle_request_inner http mi to_uppercase to_ascii_uppercase handler_hash http_execute'
                chain other req request_id elsewhere).0,
            world,
          )
    unfolding handle_request_inner with_middleware
    handle_request_inner_stopped chain router other x y req request_id world elsewhere h =
        elim (Bool-cases (is_empty chain.before)) [
          | inl e ↦ absurd (h (execute_before_none chain _ e))
          | inr e ↦
              rw (e, handle_request_inner)
                (after_before_stopped chain
                  (execute_before chain (context_of to_ascii_uppercase req request_id)) _ _ world
                  elsewhere h)
        ]
