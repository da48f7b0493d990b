-- ===== src/Core/Worker/Tests.antt =====
-- Requests through a worker with one route, and concrete cases of the theorems.
use hypern.Core.Reload
use hypern.Core.Reload.{ReloadManager, Waiter, waiting, returned}
use hypern.Core.Worker.{
  Http, HttpResponse, refused, context_of, execute_route, fast_path, handle_request_inner,
  with_middleware,
}
use hypern.Core.Worker.AddedHeaders.{lookup-execute_route}
use hypern.Core.Worker.Draining.{Event, Worker, in_flight-run, run, start, step, waiter-run}
use hypern.Core.Worker.Paths.{with_middleware-fast_path}
use hypern.Core.Worker.Stopping.{handle_request_inner_stopped}
use hypern.Http.Headers
use hypern.Http.Method.{from_str}
use hypern.Http.Request
use hypern.Http.Request.{Request}
use hypern.Middleware.Chain
use hypern.Middleware.Chain.{MiddlewareChain, execute_after, execute_all, execute_before}
use hypern.Middleware.Chain.Tests.{deny, tag}
use hypern.Middleware.Context.{HttpMethod}
use hypern.Prelude.Map
use hypern.Prelude.Text.{trim_end_matches, trim_start_matches}
use hypern.Routing.Route.{Route, is_valid}
use hypern.Routing.Router
use hypern.Routing.Router.{
  Router, add_route, convert_from, find_matching_route, get_full_path, slot_of,
}
use hypern.Routing.Router.Tests.{exact, one_route, route, same_text}
use hypern.Prelude.{
  ℕ, ◌+◌, ◌≤◌, ◌≡◌, refl, true, not, none, some, List, [], ◌∷◌, arith, leb, ◌==◌, string_eq, nat_eq,
}

abbrev http : Http
http = record {
  header_name = some;
  is_header_value = λ v. not (v == "bad");
  is_status = λ n. leb 100 n;
  to_string = λ n. "n";
  byte_length = λ s. 0;
}

abbrev hash_of : Route → ℕ
hash_of r = 7

-- The world is the number of calls of handlers so far.
abbrev answer : ℕ → Request → ℕ → HttpResponse × ℕ
answer hash req calls = (
  record { status = 200; headers = ("x-tag", "own") ∷ ("x-own", "1") ∷ []; body = req.path },
  calls + 1,
)

abbrev crash : ℕ → Request → ℕ → HttpResponse × ℕ
crash hash req calls = (record { status = 500; headers = []; body = "" }, calls + 2)

abbrev get_a : Request
get_a = Request.new "/api/a" HttpMethod.get Headers.new "" none 0

abbrev tagging : MiddlewareChain
tagging = Chain.use_before tag Chain.new

abbrev denying : MiddlewareChain
denying = Chain.use_before deny Chain.new

-- Middleware that runs after the handler is skipped where none runs before it.
after_only_test :
    handle_request_inner http exact same_text same_text hash_of answer
      (Chain.use_after tag Chain.new)
      one_route
      get_a
      "id"
      0
    ≡ (
      record { status = 200; headers = ("x-tag", "own") ∷ ("x-own", "1") ∷ []; body = "/api/a" },
      1,
    )
unfolding handle_request_inner fast_path find_matching_route add_route is_valid slot_of convert_from
    get_full_path Map.lookup Map.insert trim_end_matches trim_start_matches
after_only_test = refl

with_middleware-fast_path_example :
    with_middleware http exact same_text same_text hash_of answer Chain.new one_route get_a "id" 0
    ≡ fast_path http exact same_text same_text hash_of answer one_route get_a 0
with_middleware-fast_path_example =
    with_middleware-fast_path http exact same_text same_text hash_of answer Chain.new one_route
      get_a "id" 0 refl refl

handle_request_inner_stopped_example :
    handle_request_inner http exact same_text same_text hash_of answer denying one_route get_a "id"
      5
    ≡ (
      (handle_request_inner http exact same_text same_text hash_of crash denying
          (Router.new exact "")
          get_a
          "id"
          0).0,
      5,
    )
unfolding execute_before execute_all from_str
handle_request_inner_stopped_example =
    handle_request_inner_stopped http exact same_text same_text hash_of denying one_route
      (Router.new exact "") answer crash get_a "id" 5 0 (λ e. ground (arith, e))

lookup-execute_route_example :
    Map.lookup "x-tag"
      (execute_route http exact same_text same_text hash_of answer
        (Chain.use_after tag Chain.new)
        (some (route "/a", []))
        get_a
        (context_of same_text get_a "id")
        0).0.headers
    ≡ some "1"
unfolding execute_after execute_all from_str
lookup-execute_route_example =
    lookup-execute_route http exact same_text same_text hash_of answer "x-tag"
      (Chain.use_after tag Chain.new) (route "/a") [] get_a (context_of same_text get_a "id") 0

-- One request is answered, the future of one is lost, and one comes while the worker drains.
abbrev events : List Event
events =
    Event.arrives ∷ Event.counts ∷ Event.arrives ∷ Event.counts ∷ Event.arrives ∷ Event.counts
    ∷ Event.completes ∷ Event.loses ∷ Event.drains ∷ Event.arrives ∷ Event.counts ∷ []

in_flight-run_example :
    (run events (start Reload.default_config)).manager.health.in_flight
    ≡ (run events (start Reload.default_config)).open_requests
      + (run events (start Reload.default_config)).lost
in_flight-run_example = in_flight-run events Reload.default_config (omega arith)

-- After these events one request is open and one is lost.
open_test :
    ((run events (start Reload.default_config)).open_requests ≡ 1)
    × ((run events (start Reload.default_config)).lost ≡ 1)
unfolding run step refused Reload.on_request_start Reload.on_request_complete Reload.start_drain
open_test = (refl, refl)

-- A request that was tested before the drain began gets in after it.
late_test :
    (run
      (Event.arrives ∷ Event.drains ∷ Event.counts ∷ [])
      (start Reload.default_config)).open_requests
    ≡ 1
unfolding run step refused Reload.on_request_start Reload.start_drain
late_test = refl

abbrev drained : Worker
drained = record {
  manager = record (Reload.new Reload.default_config) {
    is_draining = true;
    health = record { status_code = 2; in_flight = 2; custom_checks = [] };
    waiter = waiting 100;
  };
  tested = 0;
  open_requests = 2;
  lost = 0;
}

abbrev last_events : List Event
last_events = Event.completes ∷ Event.arrives ∷ Event.counts ∷ Event.completes ∷ []

waiter-run_example :
    ((run last_events drained).open_requests ≤ 2)
    × ((run last_events drained).manager.waiter ≡ returned true)
unfolding run step refused Reload.on_request_complete
waiter-run_example =
    waiter-run last_events drained 100 refl refl refl (omega arith) (omega arith) refl
