-- ===== src/Middleware/BasicAuth.antt =====
-- src/middleware/builtin.rs, `BasicAuthMiddleware`: the user and the password of a request's header
-- against a table. The conversions between texts and UTF-8 and `to_lowercase` are parameters.
pub mod Base64
mod Sextets
mod RoundTrip
mod Access
mod Tests
use Prim.Native.String
use hypern.Prelude.Options.{◌>>=◌}
use hypern.Prelude.Map
use hypern.Prelude.Map.{Map}
use hypern.Prelude.Text.{strip_prefix, split_once}
use hypern.Middleware.BasicAuth.Base64.{base64_decode}
use hypern.Middleware.Context.{
  MiddlewareResponse, MiddlewareResult, continue, response, MiddlewareContext, get_header,
  set_authenticated, unauthorized, with_header,
}
use hypern.Prelude.{ℕ, String, Option, none, some, List, [], if◌then◌else◌, ◌==◌, string_eq, nat_eq}

pub record BasicAuthMiddleware : Type 0 where
  pub credentials : Map String String
  pub realm : String

-- BasicAuthMiddleware::new
abbrev pub new : String → BasicAuthMiddleware
new realm = record { credentials = []; realm = realm }

unfoldable pub add_user : String → String → BasicAuthMiddleware → BasicAuthMiddleware
add_user username password mw = record mw {
  credentials = Map.insert username password mw.credentials;
}

module _ (as_bytes : String → List ℕ) (from_utf8 : List ℕ → Option String) where
  -- `splitn(2, ':')` gives a second part exactly if there is a colon.
  unfoldable pub decode_basic_auth : String → Option (String × String)
  decode_basic_auth header = do
    encoded ← strip_prefix "Basic " header
    decoded ← base64_decode (as_bytes encoded)
    credentials ← from_utf8 decoded
    split_once 58 credentials

-- The answer with the `WWW-Authenticate` header.
abbrev pub challenge : String → String → MiddlewareResponse
challenge message realm =
    with_header "WWW-Authenticate" (String.◌++◌ "Basic realm=\"" (String.◌++◌ realm "\""))
      (unauthorized message)

-- The rest of `execute`, from the decoded header.
unfoldable pub check_credentials :
    BasicAuthMiddleware
    → Option (String × String)
    → MiddlewareContext
    → MiddlewareResult × MiddlewareContext
check_credentials mw none ctx = (response (unauthorized "Invalid authentication format"), ctx)
check_credentials mw (some (username, password)) ctx = elim (Map.lookup username mw.credentials) [
  | none ↦ (response (challenge "Invalid credentials" mw.realm), ctx)
  | some stored_password ↦
      if stored_password == password
      then (continue, set_authenticated username [] ctx)
      else (response (challenge "Invalid credentials" mw.realm), ctx)
]

module _ (to_lowercase : String → String) (as_bytes : String → List ℕ)
    (from_utf8 : List ℕ → Option String) where
  unfoldable pub execute :
      BasicAuthMiddleware → MiddlewareContext → MiddlewareResult × MiddlewareContext
  execute mw ctx = elim (get_header to_lowercase "authorization" ctx) [
    | none ↦ (response (challenge "Authentication required" mw.realm), ctx)
    | some auth_header ↦ check_credentials mw (decode_basic_auth as_bytes from_utf8 auth_header) ctx
  ]
