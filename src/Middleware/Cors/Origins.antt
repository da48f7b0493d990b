-- ===== src/Middleware/Cors/Origins.antt =====
-- Which origins the CORS middleware serves, and what it tells them.
use hypern.Middleware.Context.{MiddlewareContext, continue, response, forbidden, get_header}
use hypern.Middleware.Cors.{
  CorsConfig, is_origin_allowed, is_wildcard, add_headers, is_options, preflight, execute,
}
use hypern.Prelude.{
  ℕ, String, ◌≡◌, refl, ◌∙◌, ◌≢◌, inl, inr, true, false, ◌||◌, Option, none, some, List, [], ◌∷◌,
  arith, if◌then◌else◌, Bool-cases, ◌==◌, is_empty, any, elem, string_eq, nat_eq,
}

-- The value of a header in a list of them, the first one.
abbrev pub header_value : String → List (String × String) → Option String
header_value name [] = none
header_value name ((n, v) ∷ hs) =
    let rest = header_value name hs in if n == name then some v else rest

is_origin_allowed_iff :
    (c : CorsConfig) (origin : String)
    → is_origin_allowed c origin ≡ is_wildcard c || elem origin c.allowed_origins
unfolding is_origin_allowed
is_origin_allowed_iff c origin = go c.allowed_origins
  where
    go :
        (os : List String)
        → any (λ allowed. allowed == "*" || allowed == origin) os ≡ elem "*" os || elem origin os
    go [] = refl
    go (o ∷ os) = ground (
      arith,
      go os,
      Bool-cases (o == "*"),
      Bool-cases (o == origin),
      Bool-cases (elem "*" os),
      Bool-cases (elem origin os),
    )

module _ (to_lowercase : String → String) (to_string : ℕ → String) where
  -- A request with an origin is refused with 403, its context unchanged, exactly if neither the
  -- wildcard nor the origin is configured; else it goes on or is answered as a preflight request,
  -- in both cases on the context with the CORS headers.
  pub execute-origin :
      (c : CorsConfig) (ctx : MiddlewareContext) (origin : String)
      → get_header to_lowercase "origin" ctx ≡ some origin
      → origin ≢ ""
      → execute to_lowercase to_string c ctx ≡ (
          if is_wildcard c || elem origin c.allowed_origins
          then (
            if is_options ctx.method then response (preflight to_string c origin) else continue,
            add_headers c origin ctx,
          )
          else (response (forbidden "Origin not allowed"), ctx))
  unfolding execute
  execute-origin c ctx origin h ne =
      let named : (origin == "") ≡ false = ground (arith, ne, string_eq.beq_iff origin "") in
      let same = is_origin_allowed_iff c origin in
      elim (Bool-cases (is_wildcard c || elem origin c.allowed_origins)) [
        | inr refused ↦ rw (h, named, same ∙ refused, refused, execute) refl
        | inl allowed ↦ elim (Bool-cases (is_options ctx.method)) [
          | inl o ↦ rw (h, named, same ∙ allowed, allowed, o, execute) refl
          | inr o ↦ rw (h, named, same ∙ allowed, allowed, o, execute) refl
        ]
      ]

  -- With the wildcard and credentials configured a preflight request is told `*` together with
  -- credentials, while the context, and so the answer to any other request, gets the origin itself.
  pub preflight-add_headers :
      (c : CorsConfig) (ctx : MiddlewareContext) (origin : String)
      → is_wildcard c ≡ true
      → c.allow_credentials ≡ true
      → ctx.response_headers ≡ []
      → (header_value "Access-Control-Allow-Origin" (preflight to_string c origin).headers
          ≡ some "*")
        × (header_value "Access-Control-Allow-Credentials" (preflight to_string c origin).headers
            ≡ some "true")
        × (header_value "Access-Control-Allow-Origin" (add_headers c origin ctx).response_headers
            ≡ some origin)
  unfolding preflight add_headers
  preflight-add_headers c ctx origin w k e = (
    rw (w, k, preflight) refl,
    rw (w, k, preflight) refl,
    elim (Bool-cases (is_empty c.expose_headers)) [
      | inl b ↦ rw (w, k, e, b, add_headers) refl
      | inr b ↦ rw (w, k, e, b, add_headers) refl
    ],
  )
