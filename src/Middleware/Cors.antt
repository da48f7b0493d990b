-- ===== src/Middleware/Cors.antt =====
-- src/middleware/builtin.rs, `CorsMiddleware`. `to_lowercase` and the printing of a number are
-- parameters.
mod Origins
mod Tests
use Prim.Native.String
use hypern.Middleware.Context.{
  HttpMethod, get, post, put, delete, patch, head, options, connect, trace, MiddlewareResponse,
  MiddlewareResult, continue, response, MiddlewareContext, get_header, add_response_header,
  forbidden, new_response, with_header,
}
use hypern.Prelude.{
  ℕ, ◌*◌, String, Bool, true, false, not, ◌&&◌, ◌||◌, List, [], ◌∷◌, ◌++◌, map, if◌then◌else◌, ◌==◌,
  or_default, is_empty, any, elem, string_eq, nat_eq,
}

pub record CorsConfig : Type 0 where
  pub allowed_origins : List String
  pub allowed_methods : List HttpMethod
  pub allowed_headers : List String
  pub expose_headers : List String
  pub allow_credentials : Bool
  pub max_age : ℕ

-- CorsConfig::default
abbrev pub default_config : CorsConfig
default_config = record {
  allowed_origins = "*" ∷ [];
  allowed_methods = get ∷ post ∷ put ∷ delete ∷ patch ∷ options ∷ [];
  allowed_headers = "Content-Type" ∷ "Authorization" ∷ "X-Requested-With" ∷ [];
  expose_headers = [];
  allow_credentials = false;
  max_age = 86400;
}

abbrev allow_origin : String → CorsConfig → CorsConfig
allow_origin origin c = record c { allowed_origins = c.allowed_origins ++ origin ∷ [] }

abbrev allow_any_origin : CorsConfig → CorsConfig
allow_any_origin c = record c { allowed_origins = "*" ∷ [] }

abbrev allow_header : String → CorsConfig → CorsConfig
allow_header header c = record c { allowed_headers = c.allowed_headers ++ header ∷ [] }

abbrev expose_header : String → CorsConfig → CorsConfig
expose_header header c = record c { expose_headers = c.expose_headers ++ header ∷ [] }

-- HttpMethod::as_str
abbrev pub as_str : HttpMethod → String
as_str get = "GET"
as_str post = "POST"
as_str put = "PUT"
as_str delete = "DELETE"
as_str patch = "PATCH"
as_str head = "HEAD"
as_str options = "OPTIONS"
as_str connect = "CONNECT"
as_str trace = "TRACE"

unfoldable pub is_origin_allowed : CorsConfig → String → Bool
is_origin_allowed c origin = any (λ allowed. allowed == "*" || allowed == origin) c.allowed_origins

-- `join(", ")`
unfoldable pub join : List String → String
join [] = ""
join (s ∷ ss) = elim ss [ [] ↦ s | t ∷ ts ↦ String.◌++◌ s (String.◌++◌ ", " (join ss)) ]

abbrev pub methods_string : CorsConfig → String
methods_string c = join (map as_str c.allowed_methods)

abbrev pub headers_string : CorsConfig → String
headers_string c = join c.allowed_headers

-- `ctx.method == HttpMethod::OPTIONS`
abbrev pub is_options : HttpMethod → Bool
is_options options = true
is_options _ = false

abbrev pub is_wildcard : CorsConfig → Bool
is_wildcard c = elem "*" c.allowed_origins

-- The headers of every answer to an allowed origin.
unfoldable pub add_headers : CorsConfig → String → MiddlewareContext → MiddlewareContext
add_headers c origin ctx =
    let allowed_origin = if is_wildcard c && not c.allow_credentials then "*" else origin in
    let with_origin = add_response_header "Access-Control-Allow-Origin" allowed_origin ctx in
    let with_credentials =
      if c.allow_credentials
      then add_response_header "Access-Control-Allow-Credentials" "true" with_origin
      else with_origin in
    if is_empty c.expose_headers
    then with_credentials
    else add_response_header "Access-Control-Expose-Headers" (join c.expose_headers)
        with_credentials

module _ (to_string : ℕ → String) where
  -- The answer to a preflight request.
  unfoldable pub preflight : CorsConfig → String → MiddlewareResponse
  preflight c origin =
      let r = with_header "Access-Control-Max-Age" (to_string c.max_age) (
        with_header "Access-Control-Allow-Headers" (headers_string c) (
          with_header "Access-Control-Allow-Methods" (methods_string c) (
            with_header "Access-Control-Allow-Origin" (if is_wildcard c then "*" else origin)
              (new_response 204)))) in
      if c.allow_credentials then with_header "Access-Control-Allow-Credentials" "true" r else r

module _ (to_lowercase : String → String) (to_string : ℕ → String) where
  unfoldable pub execute : CorsConfig → MiddlewareContext → MiddlewareResult × MiddlewareContext
  execute c ctx =
      let origin = or_default "" (get_header to_lowercase "origin" ctx) in
      let ctx' = add_headers c origin ctx in
      if origin == ""
      then (continue, ctx)
      else if not (is_origin_allowed c origin)
      then (response (forbidden "Origin not allowed"), ctx)
      else if is_options ctx.method
      then (response (preflight to_string c origin), ctx')
      else (continue, ctx')
