-- ===== src/Middleware/Chain/Order.antt =====
-- The order in which a chain runs its middleware, and where it stops.
use hypern.Prelude.{
  String, ◌≡◌, refl, sym, ap, ◌∙◌, inl, inr, true, false, List, [], ◌∷◌, ◌++◌, arith, if◌then◌else◌,
  Bool-cases, keep,
}
use mathlib.Core.Path.{fun_ext}
use hypern.Middleware.Context.{
  HttpMethod, MiddlewareResult, continue, response, error, MiddlewareContext,
}
use hypern.Middleware.Chain.{RustMiddleware, applies, execute_all}

abbrev pub Outcome : Type 0
Outcome = MiddlewareResult × MiddlewareContext

-- Go on with `k` after a result that lets the request through.
abbrev pub then_run : Outcome → (MiddlewareContext → Outcome) → Outcome
then_run (continue, ctx) k = k ctx
then_run (response r, ctx) k = (response r, ctx)
then_run (error e, ctx) k = (error e, ctx)

-- What one middleware does, if it applies at all.
abbrev pub run_one : String → HttpMethod → RustMiddleware → MiddlewareContext → Outcome
run_one path method m ctx = if applies path method m then m.execute ctx else (continue, ctx)

execute_all-cons :
    (path : String) (method : HttpMethod) (m : RustMiddleware) (ms : List RustMiddleware)
    (ctx : MiddlewareContext)
    → execute_all path method (m ∷ ms) ctx
      ≡ then_run (run_one path method m ctx) (execute_all path method ms)
unfolding execute_all
execute_all-cons path method m ms ctx = ground arith

then_run_assoc :
    (o : Outcome) (f g : MiddlewareContext → Outcome)
    → then_run (then_run o f) g ≡ then_run o (λ ctx. then_run (f ctx) g)
then_run_assoc (continue, ctx) f g = refl
then_run_assoc (response r, ctx) f g = refl
then_run_assoc (error e, ctx) f g = refl

-- A longer chain runs its first part and, only if that lets the request through, its second part on
-- the context that the first left.
pub execute_all-append :
    (path : String) (method : HttpMethod) (ms ns : List RustMiddleware) (ctx : MiddlewareContext)
    → execute_all path method (ms ++ ns) ctx
      ≡ then_run (execute_all path method ms ctx) (execute_all path method ns)
execute_all-append path method [] ns ctx = unfold execute_all in refl
execute_all-append path method (m ∷ ms) ns ctx =
    execute_all-cons path method m (ms ++ ns) ctx
    ∙ ap (then_run (run_one path method m ctx)) (fun_ext (execute_all-append path method ms ns))
    ∙ sym (
        then_run_assoc (run_one path method m ctx) (execute_all path method ms)
          (execute_all path method ns))
    ∙ sym
        (ap (λ o. then_run o (execute_all path method ns)) (execute_all-cons path method m ms ctx))

keep-yes :
    (path : String) (method : HttpMethod) (m : RustMiddleware) (ms : List RustMiddleware)
    → applies path method m ≡ true
    → keep (applies path method) (m ∷ ms) ≡ m ∷ keep (applies path method) ms
keep-yes path method m ms h =
    ap (λ b. if b then m ∷ keep (applies path method) ms else keep (applies path method) ms) h

keep-no :
    (path : String) (method : HttpMethod) (m : RustMiddleware) (ms : List RustMiddleware)
    → applies path method m ≡ false
    → keep (applies path method) (m ∷ ms) ≡ keep (applies path method) ms
keep-no path method m ms h =
    ap (λ b. if b then m ∷ keep (applies path method) ms else keep (applies path method) ms) h

run_one-skipped :
    (path : String) (method : HttpMethod) (m : RustMiddleware) (ctx : MiddlewareContext)
    → applies path method m ≡ false
    → run_one path method m ctx ≡ (continue, ctx)
run_one-skipped path method m ctx h = ap (λ b. if b then m.execute ctx else (continue, ctx)) h

-- Middleware that does not apply to the path and the method might as well not be there.
pub execute_all-keep :
    (path : String) (method : HttpMethod) (ms : List RustMiddleware) (ctx : MiddlewareContext)
    → execute_all path method ms ctx ≡ execute_all path method (keep (applies path method) ms) ctx
execute_all-keep path method [] ctx = refl
execute_all-keep path method (m ∷ ms) ctx = elim (Bool-cases (applies path method m)) [
  | inl yes' ↦
      execute_all-cons path method m ms ctx
      ∙ ap (then_run (run_one path method m ctx)) (fun_ext (execute_all-keep path method ms))
      ∙ sym (execute_all-cons path method m (keep (applies path method) ms) ctx)
      ∙ ap (λ l. execute_all path method l ctx) (sym (keep-yes path method m ms yes'))
  | inr no' ↦
      execute_all-cons path method m ms ctx
      ∙ ap (λ o. then_run o (execute_all path method ms)) (run_one-skipped path method m ctx no')
      ∙ execute_all-keep path method ms ctx
      ∙ ap (λ l. execute_all path method l ctx) (sym (keep-no path method m ms no'))
]

-- Where a chain stopped: some middleware that applies gave the result, on the context that the ones
-- before it left, and those let the request through.
pub record StoppedAt (path : String) (method : HttpMethod) (ms : List RustMiddleware)
    (ctx : MiddlewareContext) (o : Outcome) : Type 0 where
  pub passed : List RustMiddleware
  pub stopper : RustMiddleware
  pub unreached : List RustMiddleware
  pub seen : MiddlewareContext
  pub split : ms ≡ passed ++ stopper ∷ unreached
  pub let_through : execute_all path method passed ctx ≡ (continue, seen)
  pub applied : applies path method stopper ≡ true
  pub outcome : stopper.execute seen ≡ o
