-- ===== src/Core/Worker.antt =====
-- src/core/worker.rs, `handle_request`: what a worker does with a request, from the drain to the
-- headers of the response. The counting of requests in flight and the answer are steps of their own,
-- so that requests can overlap. Parameters: `Matchit`, the registered handlers (`http_execute` of
-- core/interpreter.rs on a handler's hash, which acts on a world of any type), the hash of a route,
-- the http crate's tests of header names and values, and the printing of a number.
mod Stopping
mod Paths
mod Draining
mod AddedHeaders
mod Tests
use Prim.Native.String
use hypern.Core.Reload
use hypern.Core.Reload.{ReloadManager, on_request_start, on_request_complete}
use hypern.Http.Request
use hypern.Http.Request.{Request}
use hypern.Middleware.Chain
use hypern.Middleware.Chain.{
  MiddlewareChain, execute_before, execute_after, execute_error, to_response,
}
use hypern.Middleware.Context
use hypern.Middleware.Context.{
  HttpMethod, MiddlewareContext, MiddlewareResponse, MiddlewareResult, continue, response, error,
}
use hypern.Middleware.Cors.{as_str}
use hypern.Http.Method.{from_str}
use hypern.Prelude.Map.{Map}
use hypern.Routing.Route.{Route}
use hypern.Routing.Router
use hypern.Routing.Router.{Matchit, Router, find_matching_route}
use hypern.Prelude.{
  ℕ, String, Bool, not, Option, none, some, List, [], ◌∷◌, ◌++◌, if◌then◌else◌, ◌==◌, or_default,
  is_empty, keep, string_eq, nat_eq,
}

-- A response on its way to axum, header names in lower case.
pub record HttpResponse : Type 0 where
  pub status : ℕ
  pub headers : List (String × String)
  pub body : String

-- src/http/response.rs, `response_404`
abbrev pub response_404 : HttpResponse
response_404 = record {
  status = 404;
  headers = ("content-type", "text/plain") ∷ [];
  body = "Not Found";
}

-- The answer while the process drains.
abbrev pub response_draining : HttpResponse
response_draining = record {
  status = 503;
  headers =
      ("content-type", "application/json") ∷ ("connection", "close") ∷ ("retry-after", "5") ∷ [];
  body = "{\"error\":\"service_draining\",\"message\":\"Server is reloading, please retry\"}";
}

-- What the code takes from other crates.
pub record Http : Type 0 where
  -- HeaderName::from_bytes: the name in lower case, none if it is none
  pub header_name : String → Option String
  -- HeaderValue::from_str accepts it
  pub is_header_value : String → Bool
  -- StatusCode::from_u16 accepts it
  pub is_status : ℕ → Bool
  pub to_string : ℕ → String
  pub byte_length : String → ℕ

-- What `builder.body` gives, or the `unwrap_or_else`.
abbrev pub built : MiddlewareResponse → Option (List (String × String)) → HttpResponse
built r none = record { status = 500; headers = []; body = "Internal Server Error" }
built r (some headers) = record { status = r.status; headers = headers; body = r.body }

module _ (http : Http) where
  -- `builder.header` for each; none once a name or a value is none.
  unfoldable pub add_headers : List (String × String) → Option (List (String × String))
  add_headers [] = some []
  add_headers ((key, value) ∷ hs) =
      let rest = add_headers hs in
      elim (http.header_name key) [
        | none ↦ none
        | some name ↦
            if http.is_header_value value
            then elim rest [ none ↦ none | some added ↦ some ((name, value) ∷ added) ]
            else none
      ]

  -- src/middleware/mod.rs, `middleware_response_to_hyper`
  unfoldable pub middleware_response_to_hyper : MiddlewareResponse → HttpResponse
  middleware_response_to_hyper r =
      let length_header : String × String =
        ("content-length", http.to_string (http.byte_length r.body)) in
      let failed : HttpResponse = record {
        status = 500;
        headers = [];
        body = "Internal Server Error";
      } in
      if http.is_status r.status
      then elim (add_headers (r.headers ++ length_header ∷ [])) [
        | none ↦ failed
        | some added ↦ record { status = r.status; headers = added; body = r.body }
      ]
      else failed

  -- `HeaderMap::insert`: the other values of the name go.
  abbrev pub insert_header : String → String → List (String × String) → List (String × String)
  insert_header name value hs = keep (λ h. not (h.0 == name)) hs ++ (name, value) ∷ []

  -- The loop over the headers that the middleware added.
  unfoldable pub insert_all :
      List (String × String) → List (String × String) → List (String × String)
  insert_all [] hs = hs
  insert_all ((key, value) ∷ rest) hs = insert_all rest (elim (http.header_name key) [
    | none ↦ hs
    | some name ↦ if http.is_header_value value then insert_header name value hs else hs
  ])

  unfoldable pub apply_headers : List (String × String) → HttpResponse → HttpResponse
  apply_headers to_add res =
      if is_empty to_add then res else record res { headers = insert_all to_add res.headers }

module _ (http : Http) {World : Type 0} where
  -- What each result of the middleware in front leads to, in the world that the handlers act on.
  abbrev pub after_before :
      MiddlewareChain
      → MiddlewareResult × MiddlewareContext
      → (MiddlewareContext → World → HttpResponse × World)
      → World
      → HttpResponse × World
  after_before chain (continue, ctx) route world = route ctx world
  after_before chain (response r, ctx) route world = (middleware_response_to_hyper http r, world)
  after_before chain (error e, ctx) route world = elim (execute_error chain ctx e).0 [
    | some r ↦ (middleware_response_to_hyper http r, world)
    | none ↦ (middleware_response_to_hyper http (to_response e), world)
  ]

-- The test at the start of `handle_request`: the refusal, none for a request that goes on. The
-- increment of the counter is a step of its own, so other threads can come between.
unfoldable pub refused : ReloadManager → Option HttpResponse
refused m = if m.is_draining then some response_draining else none

module _ (to_ascii_uppercase : String → String) where
  -- MiddlewareContext::new of the request, with the id that it generates.
  abbrev pub context_of : Request → String → MiddlewareContext
  context_of req request_id =
      Context.new_context req.path
        (or_default HttpMethod.get (from_str to_ascii_uppercase (as_str req.method)))
        (Request.headers_map req) req.query_string (Request.body_ref req) request_id

module _ (http : Http) (mi : Matchit) (to_uppercase to_ascii_uppercase : String → String)
    (handler_hash : Route → ℕ) {World : Type 0}
    (http_execute : ℕ → Request → World → HttpResponse × World) where
  -- The handler of a route that was found, or 404.
  abbrev pub execute_found :
      Option (Route × Map String String) → Request → World → HttpResponse × World
  execute_found none req world = (response_404, world)
  execute_found (some (route, params)) req world =
      http_execute (handler_hash route) (Request.set_path_params params req) world

  abbrev pub find_route : Router mi → Request → Option (Route × Map String String)
  find_route router req = find_matching_route mi to_uppercase req.path (as_str req.method) router

  -- The branch without middleware in front.
  unfoldable pub fast_path : Router mi → Request → World → HttpResponse × World
  fast_path router req world = execute_found (find_route router req) req world

  -- The part behind the middleware in front, which left this context.
  unfoldable pub execute_route :
      MiddlewareChain
      → Option (Route × Map String String)
      → Request
      → MiddlewareContext
      → World
      → HttpResponse × World
  execute_route chain none req ctx world = (response_404, world)
  execute_route chain (some (route, params)) req ctx world =
      let (res, after_handler) =
        http_execute (handler_hash route) (Request.set_path_params params req) world in
      let with_params = record ctx { path_params = params } in
      let left =
        if is_empty chain.after then with_params else (execute_after chain with_params).1 in
      (apply_headers http left.response_headers res, after_handler)

  unfoldable pub with_middleware :
      MiddlewareChain → Router mi → Request → String → World → HttpResponse × World
  unfolding execute_route
  with_middleware chain router req request_id world =
      after_before http chain (execute_before chain (context_of to_ascii_uppercase req request_id))
        (execute_route chain (find_route router req) req) world

  unfoldable pub handle_request_inner :
      MiddlewareChain → Router mi → Request → String → World → HttpResponse × World
  unfolding with_middleware fast_path
  handle_request_inner chain router req request_id world =
      let fast = fast_path router req world in
      let slow = with_middleware chain router req request_id world in
      if is_empty chain.before then fast else slow

  -- All of `handle_request`, where no other request comes between.
  unfoldable pub handle_request :
      MiddlewareChain
      → Router mi
      → Request
      → String
      → ReloadManager
      → World
      → (HttpResponse × World) × ReloadManager
  unfolding refused handle_request_inner
  handle_request chain router req request_id m world =
      let answer = handle_request_inner chain router req request_id world in
      elim (refused m) [
        | some r ↦ ((r, world), m)
        | none ↦ (answer, on_request_complete (on_request_start m))
      ]
