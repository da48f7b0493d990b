-- ===== src/Core/Worker/AddedHeaders.antt =====
-- The headers that middleware adds to a handler's response.
use hypern.Core.Worker.{Http, HttpResponse, insert_header, insert_all, apply_headers, execute_route}
use hypern.Http.Request
use hypern.Http.Request.{Request}
use hypern.Middleware.Chain.{MiddlewareChain, execute_after}
use hypern.Middleware.Context.{MiddlewareContext}
use hypern.Prelude.Map
use hypern.Prelude.Map.{Map}
use hypern.Routing.Route.{Route}
use hypern.Routing.Router.{Matchit}
use hypern.Prelude.{
  ℕ, String, ◌≡◌, refl, sym, ap, ◌∙◌, inl, inr, Bool, true, false, not, Option, none, some, List,
  [], ◌∷◌, ◌++◌, arith, if◌then◌else◌, Bool-cases, Option-cases, ◌==◌, is_empty, keep, string_eq,
  nat_eq,
}

abbrev or_else : Option String → Option String → Option String
or_else (some v) o = some v
or_else none o = o

lookup-keep :
    (name n : String) (hs : List (String × String))
    → Map.lookup n (keep (λ h. not (h.0 == name)) hs)
      ≡ (if name == n then none else Map.lookup n hs)
unfolding Map.lookup
lookup-keep name n [] = ground arith
lookup-keep name n ((k, v) ∷ hs) = ground (
  arith,
  lookup-keep name n hs,
  string_eq.beq_iff k name,
  string_eq.beq_iff k n,
  string_eq.beq_iff name n,
)

lookup-append :
    (n : String) (xs ys : Map String String)
    → Map.lookup n (xs ++ ys) ≡ or_else (Map.lookup n xs) (Map.lookup n ys)
unfolding Map.lookup
lookup-append n [] ys = refl
lookup-append n ((k, v) ∷ xs) ys = ground (arith, lookup-append n xs ys)

execute_after_none :
    (chain : MiddlewareChain) (ctx : MiddlewareContext)
    → is_empty chain.after ≡ true
    → (execute_after chain ctx).1 ≡ ctx
unfolding execute_after
execute_after_none chain ctx e = rw (e, execute_after) refl

module _ (http : Http) where
  lookup-insert_header :
      (name value n : String) (hs : List (String × String))
      → Map.lookup n (insert_header http name value hs)
        ≡ (if name == n then some value else Map.lookup n hs)
  unfolding Map.lookup
  lookup-insert_header name value n hs =
      lookup-append n (keep (λ h. not (h.0 == name)) hs) ((name, value) ∷ [])
      ∙ ap (λ o. or_else o (if name == n then some value else none)) (lookup-keep name n hs)
      ∙ or_else-if (name == n) (Map.lookup n hs)
    where
      or_else-if :
          (b : Bool) (o : Option String)
          → or_else (if b then none else o) (if b then some value else none)
            ≡ (if b then some value else o)
      or_else-if true o = refl
      or_else-if false none = refl
      or_else-if false (some v) = refl

  -- What one header of the middleware does, and the last one of a name.
  abbrev one_value : String → Option String → String → Option String
  one_value n none value = none
  one_value n (some name) value =
      if http.is_header_value value then (if name == n then some value else none) else none

  abbrev pub last_value : String → List (String × String) → Option String
  last_value n [] = none
  last_value n ((key, value) ∷ rest) =
      or_else (last_value n rest) (one_value n (http.header_name key) value)

  or_else_assoc : (a b c : Option String) → or_else a (or_else b c) ≡ or_else (or_else a b) c
  or_else_assoc none b c = refl
  or_else_assoc (some v) b c = refl

  abbrev inserted : Option String → String → List (String × String) → List (String × String)
  inserted none value hs = hs
  inserted (some name) value hs =
      if http.is_header_value value then insert_header http name value hs else hs

  lookup-inserted :
      (n : String) (name : Option String) (value : String) (hs : List (String × String))
      → Map.lookup n (inserted name value hs) ≡ or_else (one_value n name value) (Map.lookup n hs)
  lookup-inserted n none value hs = refl
  lookup-inserted n (some name) value hs = elim (Bool-cases (http.is_header_value value)) [
    | inr e ↦ rw e refl
    | inl e ↦ elim (Bool-cases (name == n)) [
      | inl k ↦ rw e (lookup-insert_header name value n hs ∙ rw k)
      | inr k ↦ rw e (lookup-insert_header name value n hs ∙ rw k)
    ]
  ]

  insert_all-cons :
      (key value : String) (rest hs : List (String × String))
      → insert_all http ((key, value) ∷ rest) hs
        ≡ insert_all http rest (inserted (http.header_name key) value hs)
  unfolding insert_all
  insert_all-cons key value rest hs = elim (Option-cases (http.header_name key)) [
    | inl e ↦ rw (e, insert_all)
    | inr (name, e) ↦ rw (e, insert_all)
  ]

  lookup-insert_all :
      (n : String) (added hs : List (String × String))
      → Map.lookup n (insert_all http added hs) ≡ or_else (last_value n added) (Map.lookup n hs)
  unfolding insert_all
  lookup-insert_all n [] hs = refl
  lookup-insert_all n ((key, value) ∷ rest) hs =
      ap (Map.lookup n) (insert_all-cons key value rest hs)
      ∙ lookup-insert_all n rest (inserted (http.header_name key) value hs)
      ∙ ap (or_else (last_value n rest)) (lookup-inserted n (http.header_name key) value hs)
      ∙ or_else_assoc (last_value n rest) (one_value n (http.header_name key) value)
          (Map.lookup n hs)

  lookup-apply_headers :
      (n : String) (added : List (String × String)) (res : HttpResponse)
      → Map.lookup n (apply_headers http added res).headers
        ≡ or_else (last_value n added) (Map.lookup n res.headers)
  unfolding apply_headers
  lookup-apply_headers n [] res = refl
  lookup-apply_headers n (a ∷ added) res = lookup-insert_all n (a ∷ added) res.headers

  module _ (mi : Matchit) (to_uppercase to_ascii_uppercase : String → String)
      (handler_hash : Route → ℕ) {World : Type 0}
      (http_execute : ℕ → Request → World → HttpResponse × World) where
    -- The handler's response has, under each name, the last value that the middleware before and after
    -- the handler added, where it is a valid header, and else the handler's own.
    pub lookup-execute_route :
        (n : String) (chain : MiddlewareChain) (route : Route) (params : Map String String)
        (req : Request) (ctx : MiddlewareContext) (world : World)
        → Map.lookup n
            (execute_route http mi to_uppercase to_ascii_uppercase handler_hash http_execute chain
              (some (route, params))
              req
              ctx
              world).0.headers
          ≡ or_else
              (last_value n
                (execute_after chain (record ctx { path_params = params })).1.response_headers)
              (Map.lookup n
                (http_execute
                  (handler_hash route)
                  (Request.set_path_params params req)
                  world).0.headers)
    unfolding execute_route
    lookup-execute_route n chain route params req ctx world =
        let with_params = record ctx { path_params = params } in
        let res =
          (http_execute (handler_hash route) (Request.set_path_params params req) world).0 in
        elim (Bool-cases (is_empty chain.after)) [
          | inl e ↦
              rw (e, execute_route)
                (lookup-apply_headers n ctx.response_headers res
                  ∙ ap
                      (λ (c : MiddlewareContext).
                        or_else (last_value n c.response_headers) (Map.lookup n res.headers))
                      (sym (execute_after_none chain with_params e)))
          | inr e ↦
              rw (e, execute_route)
                (lookup-apply_headers n (execute_after chain with_params).1.response_headers res)
        ]
