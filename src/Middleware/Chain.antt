-- ===== src/Middleware/Chain.antt =====
-- src/middleware/chain.rs, `MiddlewareChain`: middleware before and after the handler, and error
-- handlers. A middleware is a record of functions; `execute` returns its result and the context as
-- it left it.
mod Order
mod Errors
pub mod Tests
use Prim.Native.String
use hypern.Prelude.{
  String, Bool, ◌&&◌, Option, none, some, List, [], ◌∷◌, ◌++◌, if◌then◌else◌, is_empty,
}
use hypern.Middleware.Context.{
  HttpMethod, MiddlewareResponse, MiddlewareError, MiddlewareResult, continue, response, error,
  MiddlewareContext, string, int, set_state, new_response, with_json_body,
}

-- trait RustMiddleware
pub record RustMiddleware : Type 0 where
  pub name : String
  pub execute : MiddlewareContext → MiddlewareResult × MiddlewareContext
  pub applies_to : String → Bool
  pub applies_to_method : HttpMethod → Bool

pub record MiddlewareChain : Type 0 where
  pub before : List RustMiddleware
  pub after : List RustMiddleware
  pub error_handlers : List RustMiddleware

-- MiddlewareChain::new
abbrev pub new : MiddlewareChain
new = record { before = []; after = []; error_handlers = [] }

abbrev pub use_before : RustMiddleware → MiddlewareChain → MiddlewareChain
use_before m c = record c { before = c.before ++ m ∷ [] }

abbrev pub use_after : RustMiddleware → MiddlewareChain → MiddlewareChain
use_after m c = record c { after = c.after ++ m ∷ [] }

abbrev pub use_error : RustMiddleware → MiddlewareChain → MiddlewareChain
use_error m c = record c { error_handlers = c.error_handlers ++ m ∷ [] }

abbrev pub applies : String → HttpMethod → RustMiddleware → Bool
applies path method m = m.applies_to path && m.applies_to_method method

-- The loop of `execute_before` and `execute_after`; the path and the method were read before it.
unfoldable pub execute_all :
    String
    → HttpMethod
    → List RustMiddleware
    → MiddlewareContext
    → MiddlewareResult × MiddlewareContext
execute_all path method [] ctx = (continue, ctx)
execute_all path method (m ∷ ms) ctx =
    let skipped = execute_all path method ms ctx in
    let (result, ctx') = m.execute ctx in
    let passed = execute_all path method ms ctx' in
    if applies path method m
    then elim result [
      | continue ↦ passed
      | response r ↦ (response r, ctx')
      | error e ↦ (error e, ctx')
    ]
    else skipped

unfoldable pub execute_before :
    MiddlewareChain → MiddlewareContext → MiddlewareResult × MiddlewareContext
unfolding execute_all
execute_before c ctx =
    if is_empty c.before then (continue, ctx) else execute_all ctx.path ctx.method c.before ctx

unfoldable pub execute_after :
    MiddlewareChain → MiddlewareContext → MiddlewareResult × MiddlewareContext
unfolding execute_all
execute_after c ctx =
    if is_empty c.after then (continue, ctx) else execute_all ctx.path ctx.method c.after ctx

-- The loop of `execute_error`; an error handler's method test is not asked.
unfoldable pub handle_all :
    String → List RustMiddleware → MiddlewareContext → Option MiddlewareResponse × MiddlewareContext
handle_all path [] ctx = (none, ctx)
handle_all path (m ∷ ms) ctx =
    let skipped = handle_all path ms ctx in
    let (result, ctx') = m.execute ctx in
    let passed = handle_all path ms ctx' in
    if m.applies_to path
    then elim result [ response r ↦ (some r, ctx') | continue ↦ passed | error e ↦ passed ]
    else skipped

-- MiddlewareError::to_response
abbrev pub to_response : MiddlewareError → MiddlewareResponse
to_response e =
    with_json_body
      (String.◌++◌ "{\"error\":\""
        (String.◌++◌ e.code (String.◌++◌ "\",\"message\":\"" (String.◌++◌ e.message "\"}"))))
      (new_response e.status)

abbrev pub store_error : MiddlewareError → MiddlewareContext → MiddlewareContext
store_error e ctx =
    set_state "error_status" (int e.status)
      (set_state "error_message" (string e.message) (set_state "error_code" (string e.code) ctx))

unfoldable pub execute_error :
    MiddlewareChain
    → MiddlewareContext
    → MiddlewareError
    → Option MiddlewareResponse × MiddlewareContext
unfolding handle_all
execute_error c ctx e =
    let ctx' = store_error e ctx in
    let (found, ctx'') = handle_all ctx'.path c.error_handlers ctx' in
    elim found [ some r ↦ (some r, ctx'') | none ↦ (some (to_response e), ctx'') ]
