-- ===== src/Middleware/Chain/Tests.antt =====
-- Tests of the chain, and the theorems at concrete inputs.
use hypern.Prelude.{String, ◌≡◌, refl, ◌⊎◌, true, false, none, some, [], ◌∷◌, string_eq, nat_eq}
use hypern.Prelude.Map
use hypern.Middleware.Context.{
  MiddlewareContext, MiddlewareError, MiddlewareResult, continue, response, get, new_context,
  forbidden, add_response_header, set_state,
}
use hypern.Middleware.Chain.{
  RustMiddleware, MiddlewareChain, new, use_before, use_error, execute_all, execute_before,
  handle_all, execute_error, to_response, store_error,
}
use hypern.Middleware.Chain.Errors.{execute_error-Handled, Handled, Passed}

chain : Unit {0}
unfolding execute_all execute_before handle_all execute_error set_state Map.insert
chain = tt

abbrev everywhere :
    String → (MiddlewareContext → MiddlewareResult × MiddlewareContext) → RustMiddleware
everywhere name f = record {
  name = name;
  execute = f;
  applies_to = λ path. true;
  applies_to_method = λ method. true;
}

abbrev pub tag : RustMiddleware
tag = everywhere "tag" (λ ctx. (continue, add_response_header "x-tag" "1" ctx))

abbrev pub deny : RustMiddleware
deny = everywhere "deny" (λ ctx. (response (forbidden "no"), ctx))

abbrev asleep : RustMiddleware
asleep = record deny { applies_to = λ path. false }

abbrev request : MiddlewareContext
request = new_context "/a" get [] "" none "id"

abbrev pub tagged : MiddlewareContext
tagged = add_response_header "x-tag" "1" request

abbrev guarded : MiddlewareChain
guarded = use_before tag (use_before deny (use_before asleep (use_before tag new)))

before_test : execute_before guarded request ≡ (response (forbidden "no"), tagged)
unfolding chain
before_test = refl

abbrev failure : MiddlewareError
failure = record { code = "E"; message = "broken"; status = 500 }

error_test : (execute_error (use_error tag new) request failure).0 ≡ some (to_response failure)
unfolding chain
error_test = refl

-- The first handler sleeps, the second marks the context and gives no response, the third responds.
abbrev handlers : MiddlewareChain
handlers = use_error deny (use_error tag (use_error asleep new))

handled_test : (execute_error handlers request failure).0 ≡ some (forbidden "no")
unfolding chain
handled_test = refl

execute_error-Handled_example :
    (((execute_error handlers request failure).0 ≡ some (to_response failure))
      × Passed "/a"
          (asleep ∷ tag ∷ deny ∷ [])
          (store_error failure request)
          (execute_error handlers request failure).1)
    ⊎ ((r : _) × ((execute_error handlers request failure).0 ≡ some r)
        × Handled "/a"
            (asleep ∷ tag ∷ deny ∷ [])
            (store_error failure request)
            r
            (execute_error handlers request failure).1)
execute_error-Handled_example = execute_error-Handled handlers request failure
