-- ===== src/Middleware/Chain/Errors.antt =====
-- What a chain answers to an error.
use hypern.Prelude.{
  String, ◌≡◌, refl, sym, ap, subst, ◌≢◌, ◌⊎◌, inl, inr, Bool, true, false, Option, none, some,
  List, [], ◌∷◌, ◌++◌, arith,
}
use hypern.Middleware.Context.{
  MiddlewareResponse, MiddlewareError, MiddlewareResult, continue, response, error,
  MiddlewareContext, set_state,
}
use hypern.Middleware.Chain.{
  RustMiddleware, MiddlewareChain, handle_all, store_error, execute_error, to_response,
}

-- The handlers leave the error to others: each does not apply to the path, or gives no response and
-- hands its context on.
pub data Passed (path : String)
    : List RustMiddleware → MiddlewareContext → MiddlewareContext → Type 0 where
  done : {ctx : MiddlewareContext} → Passed path [] ctx ctx
  skips :
      {m : RustMiddleware} {ms : List RustMiddleware} {ctx left : MiddlewareContext}
      → m.applies_to path ≡ false
      → Passed path ms ctx left
      → Passed path (m ∷ ms) ctx left
  silent :
      {m : RustMiddleware} {ms : List RustMiddleware} {ctx mid left : MiddlewareContext}
      {result : MiddlewareResult}
      → m.applies_to path ≡ true
      → m.execute ctx ≡ (result, mid)
      → ((r : MiddlewareResponse) → result ≢ response r)
      → Passed path ms mid left
      → Passed path (m ∷ ms) ctx left

-- The first of the handlers to respond: it applies to the path, and gives the response, leaving
-- `left`, on the context on which those before it passed the error on.
pub record Handled (path : String) (ms : List RustMiddleware) (ctx : MiddlewareContext)
    (r : MiddlewareResponse) (left : MiddlewareContext) : Type 0 where
  pub earlier : List RustMiddleware
  pub handler : RustMiddleware
  pub later : List RustMiddleware
  pub seen : MiddlewareContext
  pub split : ms ≡ earlier ++ handler ∷ later
  pub passed : Passed path earlier ctx seen
  pub applied : handler.applies_to path ≡ true
  pub answered : handler.execute seen ≡ (response r, left)

-- A handler in front that passes the error on.
Handled-cons :
    (path : String) (m : RustMiddleware) (ms : List RustMiddleware) (ctx mid : MiddlewareContext)
    (r : MiddlewareResponse) (left : MiddlewareContext)
    → ((l : List RustMiddleware) (end : MiddlewareContext)
        → Passed path l mid end
        → Passed path (m ∷ l) ctx end)
    → Handled path ms mid r left
    → Handled path (m ∷ ms) ctx r left
Handled-cons path m ms ctx mid r left pass h = record {
  earlier = m ∷ h.earlier;
  handler = h.handler;
  later = h.later;
  seen = h.seen;
  split = ap (λ l. m ∷ l) h.split;
  passed = pass h.earlier h.seen h.passed;
  applied = h.applied;
  answered = h.answered;
}

-- What the loop gives on the context: nothing, when all pass the error on, or the first response.
abbrev Outcome :
    String
    → List RustMiddleware
    → MiddlewareContext
    → Option MiddlewareResponse × MiddlewareContext
    → Type 0
Outcome path ms ctx o =
    ((o.0 ≡ none) × Passed path ms ctx o.1)
    ⊎ ((r : MiddlewareResponse) × (o.0 ≡ some r) × Handled path ms ctx r o.1)

Outcome-cons :
    (path : String) (m : RustMiddleware) (ms : List RustMiddleware) (ctx mid : MiddlewareContext)
    (o : Option MiddlewareResponse × MiddlewareContext)
    → ((l : List RustMiddleware) (end : MiddlewareContext)
        → Passed path l mid end
        → Passed path (m ∷ l) ctx end)
    → Outcome path ms mid o
    → Outcome path (m ∷ ms) ctx o
Outcome-cons path m ms ctx mid o pass (inl (none', p)) = inl (none', pass ms o.1 p)
Outcome-cons path m ms ctx mid o pass (inr (r, found, h)) =
    inr (r, found, Handled-cons path m ms ctx mid r o.1 pass h)

handle_one :
    Bool
    → MiddlewareResult × MiddlewareContext
    → (MiddlewareContext → Option MiddlewareResponse × MiddlewareContext)
    → MiddlewareContext
    → Option MiddlewareResponse × MiddlewareContext
handle_one false o k ctx = k ctx
handle_one true (response r, ctx') k ctx = (some r, ctx')
handle_one true (continue, ctx') k ctx = k ctx'
handle_one true (error e, ctx') k ctx = k ctx'

handle_all-cons :
    (path : String) (m : RustMiddleware) (ms : List RustMiddleware) (ctx : MiddlewareContext)
    → handle_all path (m ∷ ms) ctx
      ≡ handle_one (m.applies_to path) (m.execute ctx) (handle_all path ms) ctx
unfolding handle_all handle_one
handle_all-cons path m ms ctx = ground arith

handle_one-Outcome :
    (path : String) (m : RustMiddleware) (ms : List RustMiddleware) (ctx : MiddlewareContext)
    (b : Bool) (o : MiddlewareResult × MiddlewareContext)
    → m.applies_to path ≡ b
    → m.execute ctx ≡ o
    → ((mid : MiddlewareContext) → Outcome path ms mid (handle_all path ms mid))
    → Outcome path (m ∷ ms) ctx (handle_one b o (handle_all path ms) ctx)
unfolding handle_one
handle_one-Outcome path m ms ctx false o a x k =
    Outcome-cons path m ms ctx ctx (handle_all path ms ctx) (λ l end p. skips a p) (k ctx)
handle_one-Outcome path m ms ctx true (response r, left) a x k = inr (
  r,
  refl,
  record {
    earlier = [];
    handler = m;
    later = ms;
    seen = ctx;
    split = refl;
    passed = done;
    applied = a;
    answered = x;
  },
)
handle_one-Outcome path m ms ctx true (continue, mid) a x k =
    Outcome-cons path m ms ctx mid (handle_all path ms mid) (λ l end p. silent a x (λ r e. cc) p)
      (k mid)
handle_one-Outcome path m ms ctx true (error e, mid) a x k =
    Outcome-cons path m ms ctx mid (handle_all path ms mid) (λ l end p. silent a x (λ r e. cc) p)
      (k mid)

handle_all-Outcome :
    (path : String) (ms : List RustMiddleware) (ctx : MiddlewareContext)
    → Outcome path ms ctx (handle_all path ms ctx)
handle_all-Outcome path [] ctx = unfold handle_all in inl (refl, done)
handle_all-Outcome path (m ∷ ms) ctx =
    subst (Outcome path (m ∷ ms) ctx) (sym (handle_all-cons path m ms ctx)) (
      handle_one-Outcome path m ms ctx (m.applies_to path) (m.execute ctx) refl refl
        (handle_all-Outcome path ms))

-- An error always ends in a response. Either every error handler passes it on, not applying to the
-- path or giving no response, and the response is the one built from the error; or the response is
-- that of the first handler that applies and gives one. Each handler runs on the context that the one
-- before it left, the first on the one in which the error is stored.
pub execute_error-Handled :
    (c : MiddlewareChain) (ctx : MiddlewareContext) (e : MiddlewareError)
    → (((execute_error c ctx e).0 ≡ some (to_response e))
        × Passed ctx.path c.error_handlers (store_error e ctx) (execute_error c ctx e).1)
      ⊎ ((r : MiddlewareResponse) × ((execute_error c ctx e).0 ≡ some r)
          × Handled ctx.path c.error_handlers (store_error e ctx) r (execute_error c ctx e).1)
unfolding execute_error set_state
execute_error-Handled c ctx e =
    answer_of (handle_all ctx.path c.error_handlers (store_error e ctx))
      (handle_all-Outcome ctx.path c.error_handlers (store_error e ctx))
  where
    -- The answer to what the loop found.
    answer :
        Option MiddlewareResponse × MiddlewareContext
        → Option MiddlewareResponse × MiddlewareContext
    answer (found, left) = elim found [
      | some r ↦ (some r, left)
      | none ↦ (some (to_response e), left)
    ]

    answer_of :
        (o : Option MiddlewareResponse × MiddlewareContext)
        → Outcome ctx.path c.error_handlers (store_error e ctx) o
        → (((answer o).0 ≡ some (to_response e))
            × Passed ctx.path c.error_handlers (store_error e ctx) (answer o).1)
          ⊎ ((r : MiddlewareResponse) × ((answer o).0 ≡ some r)
              × Handled ctx.path c.error_handlers (store_error e ctx) r (answer o).1)
    answer_of (none, left) (inl (n, p)) = inl (refl, p)
    answer_of (none, left) (inr (r, f, h)) = absurd (ground arith)
    answer_of (some r, left) (inl (n, p)) = absurd (ground arith)
    answer_of (some r, left) (inr (q, f, h)) = inr (q, f, h)
