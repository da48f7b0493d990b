-- ===== src/Core/Worker/Paths.antt =====
-- The two branches of `handle_request_inner`, with and without middleware in front.
use hypern.Core.Worker.{
  execute_found, Http, HttpResponse, fast_path, with_middleware, execute_route, apply_headers,
  context_of, find_route,
}
use hypern.Http.Request.{Request}
use hypern.Middleware.Chain.{MiddlewareChain, execute_before}
use hypern.Middleware.Context.{MiddlewareContext}
use hypern.Prelude.Map.{Map}
use hypern.Routing.Route.{Route}
use hypern.Routing.Router.{Matchit, Router}
use hypern.Prelude.{ℕ, String, ◌≡◌, refl, Option, none, some, []}

module _ (http : Http) (mi : Matchit) (to_uppercase to_ascii_uppercase : String → String)
    (handler_hash : Route → ℕ) {World : Type 0}
    (http_execute : ℕ → Request → World → HttpResponse × World) where
  execute_route_plain :
      (chain : MiddlewareChain) (found : Option (Route × Map String String)) (req : Request)
      (ctx : MiddlewareContext) (world : World)
      → chain.after ≡ []
      → ctx.response_headers ≡ []
      → execute_route http mi to_uppercase to_ascii_uppercase handler_hash http_execute chain found
          req ctx world
        ≡ execute_found http mi to_uppercase to_ascii_uppercase handler_hash http_execute found req
            world
  unfolding execute_route apply_headers
  execute_route_plain chain none req ctx world a h = refl
  execute_route_plain chain (some (route, params)) req ctx world a h = rw (a, h, apply_headers) refl

  -- Without middleware the branch that skips the context answers as the general branch would.
  pub with_middleware-fast_path :
      (chain : MiddlewareChain) (router : Router mi) (req : Request) (request_id : String)
      (world : World)
      → chain.before ≡ []
      → chain.after ≡ []
      → with_middleware http mi to_uppercase to_ascii_uppercase handler_hash http_execute chain
          router req request_id world
        ≡ fast_path http mi to_uppercase to_ascii_uppercase handler_hash http_execute router req
            world
  unfolding with_middleware fast_path execute_route apply_headers execute_before
  with_middleware-fast_path chain router req request_id world b a =
      rw (b, with_middleware)
        (execute_route_plain (record chain { before = [] })
          (find_route http mi to_uppercase to_ascii_uppercase handler_hash http_execute router req)
          req (context_of to_ascii_uppercase req request_id) world a refl)
