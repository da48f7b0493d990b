-- ===== src/Middleware/Context.antt =====
-- src/middleware/chain.rs, the data that a chain passes on: responses, errors, the request context.
-- A body is a text. The context's fields behind locks are plain fields of a record that each call returns anew.
-- `to_lowercase` is Rust's, over all of Unicode, and `form_parse` is `form_urlencoded::parse`
-- collected into a map: both are parameters.
use hypern.Prelude.{
  ℕ, String, Bool, true, false, Option, none, some, List, [], ◌∷◌, ◌++◌, if◌then◌else◌, ◌==◌,
  or_default, elem, string_eq, nat_eq,
}
use hypern.Prelude.Map
use hypern.Prelude.Map.{Map}

-- src/http/method.rs
pub data HttpMethod : Type 0 where
  get post put delete patch head options connect trace : HttpMethod

pub record MiddlewareResponse : Type 0 where
  pub status : ℕ
  pub headers : List (String × String)
  pub body : String

-- MiddlewareResponse::new
abbrev pub new_response : ℕ → MiddlewareResponse
new_response status = record { status = status; headers = []; body = "" }

abbrev pub with_header : String → String → MiddlewareResponse → MiddlewareResponse
with_header key value r = record r { headers = r.headers ++ (key, value) ∷ [] }

abbrev pub with_text_body : String → MiddlewareResponse → MiddlewareResponse
with_text_body body r = record r {
  headers = r.headers ++ ("content-type", "text/plain") ∷ [];
  body = body;
}

abbrev pub with_json_body : String → MiddlewareResponse → MiddlewareResponse
with_json_body body r = record r {
  headers = r.headers ++ ("content-type", "application/json") ∷ [];
  body = body;
}

abbrev bad_request : String → MiddlewareResponse
bad_request message = with_text_body message (new_response 400)

abbrev not_found : String → MiddlewareResponse
not_found message = with_text_body message (new_response 404)

abbrev internal_error : String → MiddlewareResponse
internal_error message = with_text_body message (new_response 500)

abbrev pub unauthorized : String → MiddlewareResponse
unauthorized message = with_text_body message (new_response 401)

abbrev pub forbidden : String → MiddlewareResponse
forbidden message = with_text_body message (new_response 403)

abbrev pub too_many_requests : String → MiddlewareResponse
too_many_requests message = with_text_body message (new_response 429)

abbrev pub service_unavailable : String → MiddlewareResponse
service_unavailable message = with_text_body message (new_response 503)

pub record MiddlewareError : Type 0 where
  pub code : String
  pub message : String
  pub status : ℕ

pub data MiddlewareResult : Type 0 where
  continue : MiddlewareResult
  response : MiddlewareResponse → MiddlewareResult
  error : MiddlewareError → MiddlewareResult

-- `Float` and `Bytes` values are left out: no middleware stores one.
pub data StateValue : Type 0 where
  string : String → StateValue
  int : ℕ → StateValue
  bool : Bool → StateValue

pub record MiddlewareState : Type 0 where
  pub values : Map String StateValue
  pub user_id : Option String
  pub is_authenticated : Bool
  pub roles : List String
  pub trace_id : Option String

-- MiddlewareState::default
abbrev pub default_state : MiddlewareState
default_state = record {
  values = [];
  user_id = none;
  is_authenticated = false;
  roles = [];
  trace_id = none;
}

pub record MiddlewareContext : Type 0 where
  pub path : String
  pub method : HttpMethod
  pub headers : Map String String
  pub query_string : String
  pub query_params : Option (Map String String)
  pub path_params : Map String String
  pub body : Option String
  pub state : Option MiddlewareState
  pub response_headers : List (String × String)
  pub request_id : String

-- MiddlewareContext::new, with the request id that it generates.
abbrev pub new_context :
    String → HttpMethod → Map String String → String → Option String → String → MiddlewareContext
new_context path method headers query_string body request_id = record {
  path = path;
  method = method;
  headers = headers;
  query_string = query_string;
  query_params = none;
  path_params = [];
  body = body;
  state = none;
  response_headers = [];
  request_id = request_id;
}

abbrev pub add_response_header : String → String → MiddlewareContext → MiddlewareContext
add_response_header name value ctx = record ctx {
  response_headers = ctx.response_headers ++ (name, value) ∷ [];
}

-- `ensure_state`, then the write.
unfoldable pub set_state : String → StateValue → MiddlewareContext → MiddlewareContext
set_state key value ctx =
    let s = or_default default_state ctx.state in
    record ctx { state = some (record s { values = Map.insert key value s.values }) }

unfoldable pub get_state : String → MiddlewareContext → Option StateValue
get_state key ctx = elim ctx.state [ none ↦ none | some s ↦ Map.lookup key s.values ]

unfoldable pub set_authenticated : String → List String → MiddlewareContext → MiddlewareContext
set_authenticated user_id roles ctx =
    let s = or_default default_state ctx.state in
    record ctx {
      state = some (record s { is_authenticated = true; user_id = some user_id; roles = roles });
    }

unfoldable pub is_authenticated : MiddlewareContext → Bool
is_authenticated ctx = elim ctx.state [ none ↦ false | some s ↦ s.is_authenticated ]

unfoldable pub user_id : MiddlewareContext → Option String
user_id ctx = elim ctx.state [ none ↦ none | some s ↦ s.user_id ]

unfoldable pub has_role : String → MiddlewareContext → Bool
has_role role ctx = elim ctx.state [ none ↦ false | some s ↦ elem role s.roles ]

abbrev set_param : String → String → MiddlewareContext → MiddlewareContext
set_param name value ctx = record ctx { path_params = Map.insert name value ctx.path_params }

abbrev set_params : Map String String → MiddlewareContext → MiddlewareContext
set_params params ctx = record ctx { path_params = params }

abbrev set_body : String → MiddlewareContext → MiddlewareContext
set_body body ctx = record ctx { body = some body }

abbrev clear_body : MiddlewareContext → MiddlewareContext
clear_body ctx = record ctx { body = none }

abbrev set_path : String → MiddlewareContext → MiddlewareContext
set_path path ctx = record ctx { path = path }

-- The parsed parameters stay as they are.
abbrev set_query_string : String → MiddlewareContext → MiddlewareContext
set_query_string query_string ctx = record ctx { query_string = query_string }

unfoldable pub take_body : MiddlewareContext → MiddlewareContext × Option String
take_body ctx = (record ctx { body = none }, ctx.body)

module _ (to_lowercase : String → String) where
  unfoldable pub get_header : String → MiddlewareContext → Option String
  get_header name ctx = Map.lookup (to_lowercase name) ctx.headers

  unfoldable pub set_header : String → String → MiddlewareContext → MiddlewareContext
  set_header name value ctx = record ctx {
    headers = Map.insert (to_lowercase name) value ctx.headers;
  }

  unfoldable pub remove_header : String → MiddlewareContext → MiddlewareContext × Option String
  remove_header name ctx =
      let key = to_lowercase name in
      (record ctx { headers = Map.remove key ctx.headers }, Map.lookup key ctx.headers)

module _ (form_parse : String → Map String String) where
  -- `ensure_query_params`: parsed on the first access only.
  abbrev pub query_params_of : MiddlewareContext → Map String String
  query_params_of ctx = elim ctx.query_params [
    | some qp ↦ qp
    | none ↦ if ctx.query_string == "" then [] else form_parse ctx.query_string
  ]

  unfoldable pub get_query : String → MiddlewareContext → MiddlewareContext × Option String
  get_query name ctx =
      let qp = query_params_of ctx in (record ctx { query_params = some qp }, Map.lookup name qp)

  unfoldable pub set_query : String → String → MiddlewareContext → MiddlewareContext
  set_query name value ctx = record ctx {
    query_params = some (Map.insert name value (query_params_of ctx));
  }

  unfoldable pub remove_query : String → MiddlewareContext → MiddlewareContext × Option String
  remove_query name ctx =
      let qp = query_params_of ctx in
      (record ctx { query_params = some (Map.remove name qp) }, Map.lookup name qp)
