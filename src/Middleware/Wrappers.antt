-- ===== src/Middleware/Wrappers.antt =====
-- src/middleware/builtin.rs, the wrappers `PathMiddleware` and `MethodMiddleware`, and the
-- middleware that only write headers and state: `RequestIdMiddleware`, `SecurityHeadersMiddleware`
-- and `CompressionMiddleware`. `to_lowercase` is a parameter.
mod Nesting
mod Tests
use text.Mathlib.Text.{starts_with}
use hypern.Prelude.Text.{contains}
use hypern.Middleware.Context.{
  HttpMethod, get, post, put, delete, patch, head, options, connect, trace, MiddlewareResult,
  continue, MiddlewareContext, get_header, add_response_header, set_state, string, int,
}
use hypern.Middleware.Chain.{RustMiddleware}
use hypern.Prelude.{
  ℕ, String, Bool, true, false, Option, none, some, List, if◌then◌else◌, ◌==◌, or_default, any,
  string_eq, nat_eq,
}

-- PathMiddleware; the method test is the trait's, which every method passes.
abbrev pub path_middleware : RustMiddleware → List String → Bool → RustMiddleware
path_middleware inner paths exact = record {
  name = inner.name;
  execute = inner.execute;
  applies_to =
      λ path. if exact then any (λ p. p == path) paths else any (λ p. starts_with path p) paths;
  applies_to_method = λ _. true;
}

-- `==` of HttpMethod
abbrev pub same_method : HttpMethod → HttpMethod → Bool
same_method get get = true
same_method post post = true
same_method put put = true
same_method delete delete = true
same_method patch patch = true
same_method head head = true
same_method options options = true
same_method connect connect = true
same_method trace trace = true
same_method _ _ = false

-- MethodMiddleware; the path test is the trait's, which every path passes.
abbrev pub method_middleware : RustMiddleware → List HttpMethod → RustMiddleware
method_middleware inner methods = record {
  name = inner.name;
  execute = inner.execute;
  applies_to = λ _. true;
  applies_to_method = λ method. any (λ m. same_method m method) methods;
}

pub record RequestIdMiddleware : Type 0 where
  pub header_name : String
  pub trust_incoming : Bool

pub record SecurityHeadersConfig : Type 0 where
  pub content_type_options : Bool
  pub frame_options : Option String
  pub xss_protection : Bool
  pub hsts : Option String
  pub csp : Option String
  pub referrer_policy : Option String
  pub permissions_policy : Option String

-- SecurityHeadersConfig::default
abbrev pub default_security : SecurityHeadersConfig
default_security = record {
  content_type_options = true;
  frame_options = some "DENY";
  xss_protection = true;
  hsts = some "max-age=31536000; includeSubDomains";
  csp = none;
  referrer_policy = some "strict-origin-when-cross-origin";
  permissions_policy = none;
}

-- A header that is written if it has a value.
abbrev add_some : String → Option String → MiddlewareContext → MiddlewareContext
add_some name none ctx = ctx
add_some name (some value) ctx = add_response_header name value ctx

-- SecurityHeadersMiddleware::execute
unfoldable pub secure :
    SecurityHeadersConfig → MiddlewareContext → MiddlewareResult × MiddlewareContext
secure c ctx = (
  continue,
  add_some "Permissions-Policy" c.permissions_policy (
      add_some "Referrer-Policy" c.referrer_policy (
        add_some "Content-Security-Policy" c.csp (
          add_some "Strict-Transport-Security" c.hsts (
            add_some "X-XSS-Protection" (if c.xss_protection then some "1; mode=block" else none) (
              add_some "X-Frame-Options" c.frame_options (
                add_some "X-Content-Type-Options"
                  (if c.content_type_options then some "nosniff" else none) ctx)))))),
)

module _ (to_lowercase : String → String) where
  -- RequestIdMiddleware::execute
  unfoldable pub identify :
      RequestIdMiddleware → MiddlewareContext → MiddlewareResult × MiddlewareContext
  identify mw ctx =
      let request_id =
        if mw.trust_incoming
        then or_default ctx.request_id (get_header to_lowercase (to_lowercase mw.header_name) ctx)
        else ctx.request_id in
      (
        continue,
        set_state "request_id" (string request_id)
            (add_response_header mw.header_name request_id ctx),
      )

  -- CompressionMiddleware::execute, from `min_size`: the preference and the size for the handler.
  unfoldable pub prefer : ℕ → MiddlewareContext → MiddlewareResult × MiddlewareContext
  prefer min_size ctx =
      let accept_encoding = or_default "" (get_header to_lowercase "accept-encoding" ctx) in
      let preferred =
        if contains accept_encoding "br"
        then set_state "compression" (string "br") ctx
        else if contains accept_encoding "gzip"
        then set_state "compression" (string "gzip") ctx
        else if contains accept_encoding "deflate"
        then set_state "compression" (string "deflate") ctx
        else ctx in
      (continue, set_state "compression_min_size" (int min_size) preferred)
