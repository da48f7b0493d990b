-- ===== src/Middleware/Wrappers/Nesting.antt =====
-- What is left of the tests of a wrapped middleware.
use text.Mathlib.Text.{starts_with}
use hypern.Middleware.Context.{HttpMethod}
use hypern.Middleware.Chain.{RustMiddleware, applies}
use hypern.Middleware.Wrappers.{path_middleware, method_middleware, same_method}
use hypern.Prelude.{
  String, ◌≡◌, refl, Bool, true, false, ◌&&◌, List, if◌then◌else◌, ◌==◌, any, string_eq, nat_eq,
}

-- A wrapper forgets the tests of what it wraps: a middleware for some paths that is then wrapped
-- for some methods runs on every path, and one for some methods wrapped for some paths runs on
-- every method.
pub applies-method_middleware :
    (inner : RustMiddleware) (paths : List String) (exact : Bool) (methods : List HttpMethod)
    (path : String) (method : HttpMethod)
    → (applies path method (method_middleware (path_middleware inner paths exact) methods)
        ≡ any (λ m. same_method m method) methods)
      × (applies path method (path_middleware (method_middleware inner methods) paths exact)
          ≡ (if exact then any (λ p. p == path) paths else any (λ p. starts_with path p) paths))
applies-method_middleware inner paths exact methods path method = (
  refl,
  and_true (if exact then any (λ p. p == path) paths else any (λ p. starts_with path p) paths),
)
  where
    and_true : (b : Bool) → b && true ≡ b
    and_true true = refl
    and_true false = refl
