-- ===== src/Middleware/Wrappers/Tests.antt =====
-- Tests of the wrappers and of the middleware that write headers.
use hypern.Prelude.Map
use hypern.Prelude.Text.{contains}
use hypern.Middleware.Context.{
  MiddlewareContext, continue, get, post, string, new_context, get_header, get_state, set_state,
}
use hypern.Middleware.Chain.{RustMiddleware, applies}
use hypern.Middleware.Wrappers.{
  path_middleware, method_middleware, default_security, secure, identify, prefer,
}
use hypern.Middleware.Wrappers.Nesting.{applies-method_middleware}
use hypern.Prelude.{String, ◌≡◌, refl, true, false, none, some, [], ◌∷◌, length, string_eq, nat_eq}

writers : Unit {0}
unfolding secure identify prefer contains get_header get_state set_state Map.lookup Map.insert
writers = tt

abbrev same_text : String → String
same_text s = s

abbrev request : MiddlewareContext
request =
    new_context "/" get (("accept-encoding", "gzip, deflate") ∷ ("x-id", "7") ∷ []) "" none "r"

prefer_test : get_state "compression" (prefer same_text 1024 request).1 ≡ some (string "gzip")
unfolding writers
prefer_test = refl

identify_test :
    (get_state "request_id"
        (identify same_text (record { header_name = "x-id"; trust_incoming = true }) request).1
      ≡ some (string "7"))
    × (get_state "request_id"
          (identify same_text (record { header_name = "x-id"; trust_incoming = false }) request).1
        ≡ some (string "r"))
unfolding writers
identify_test = (refl, refl)

secure_test : length (secure default_security request).1.response_headers ≡ 5
unfolding writers
secure_test = refl

abbrev inner : RustMiddleware
inner = record {
  name = "inner";
  execute = λ ctx. (continue, ctx);
  applies_to = λ _. true;
  applies_to_method = λ _. true;
}

nested_wrappers_test :
    (applies "/b" post (method_middleware (path_middleware inner ("/a" ∷ []) true) (post ∷ []))
      ≡ true)
    × (applies "/b" post (path_middleware (method_middleware inner (post ∷ [])) ("/a" ∷ []) true)
        ≡ false)
nested_wrappers_test = applies-method_middleware inner ("/a" ∷ []) true (post ∷ []) "/b" post
