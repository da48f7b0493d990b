-- ===== src/Middleware/BasicAuth/Access.antt =====
-- Whom the basic authentication lets in.
use Prim.Native.String
use Prim.Native.String.append
use hypern.Prelude.Map
use hypern.Prelude.Text.{IsWithout, split_once, split_once-append, strip_prefix-append}
use hypern.Middleware.BasicAuth.RoundTrip.{encode, padding, AreBytes, base64_decode-encode}
use hypern.Middleware.BasicAuth.{
  BasicAuthMiddleware, decode_basic_auth, check_credentials, challenge, execute,
}
use hypern.Middleware.Context.{
  MiddlewareContext, MiddlewareResult, continue, response, get_header, set_authenticated,
}
use hypern.Prelude.{
  ℕ, String, ◌≡◌, refl, sym, ap, ◌∙◌, subst, ◌≢◌, ◌⊎◌, inl, inr, Option, none, some, List, [], ◌++◌,
  arith, Bool-cases, Option-cases, ◌==◌, string_eq, nat_eq,
}

-- A user's name and password as a client joins them.
abbrev pub joined : String → String → String
joined username password = String.◌++◌ username (String.◌++◌ ":" password)

module _ (as_bytes : String → List ℕ) (from_utf8 : List ℕ → Option String) where
  decode_basic_auth-encode :
      (username password encoded : String) (n : ℕ)
      → IsWithout 58 username
      → AreBytes (as_bytes (joined username password))
      → from_utf8 (as_bytes (joined username password)) ≡ some (joined username password)
      → as_bytes encoded ≡ encode (as_bytes (joined username password)) ++ padding n
      → decode_basic_auth as_bytes from_utf8 (String.◌++◌ "Basic " encoded)
        ≡ some (username, password)
  unfolding decode_basic_auth
  decode_basic_auth-encode username password encoded n w b u e = rw (
    strip_prefix-append "Basic " encoded,
    e,
    base64_decode-encode (as_bytes (joined username password)) n b,
    u,
    ap (λ s. split_once 58 (String.◌++◌ username s)) (append.cons ":" "" password),
    append.nil password,
    split_once-append 58 ":" username password refl w,
  )

-- What the end of `execute` answers to a name and a password.
Answer :
    BasicAuthMiddleware
    → String
    → String
    → MiddlewareContext
    → MiddlewareResult × MiddlewareContext
    → Type 0
Answer mw username password ctx r =
    ((Map.lookup username mw.credentials ≡ some password)
      × (r ≡ (continue, set_authenticated username [] ctx)))
    ⊎ ((Map.lookup username mw.credentials ≢ some password)
        × (r ≡ (response (challenge "Invalid credentials" mw.realm), ctx)))

check_credentials-Answer :
    (mw : BasicAuthMiddleware) (username password : String) (ctx : MiddlewareContext)
    → Answer mw username password ctx (check_credentials mw (some (username, password)) ctx)
unfolding check_credentials Answer
check_credentials-Answer mw username password ctx =
    elim (Option-cases (Map.lookup username mw.credentials)) [
      | inl e ↦ inr (ground (arith, e), rw (e, check_credentials))
      | inr (stored, e) ↦ elim (Bool-cases (stored == password)) [
        | inl q ↦ inl (e ∙ ap some ((string_eq.beq_iff _ _).0 q), rw (e, q, check_credentials))
        | inr q ↦
            inr (ground (arith, e, string_eq.beq_iff stored password), rw (e, q, check_credentials))
      ]
    ]

module _ (to_lowercase : String → String) (as_bytes : String → List ℕ)
    (from_utf8 : List ℕ → Option String) where
  -- A request whose header is "Basic " and the base64 encoding of a name without a colon, a colon
  -- and a password is let through, as that user without roles, if the password is the stored one,
  -- and is else refused with a challenge, the context unchanged. The padding does not matter.
  pub execute-encode :
      (mw : BasicAuthMiddleware) (ctx : MiddlewareContext) (username password encoded : String)
      (n : ℕ)
      → IsWithout 58 username
      → AreBytes (as_bytes (joined username password))
      → from_utf8 (as_bytes (joined username password)) ≡ some (joined username password)
      → as_bytes encoded ≡ encode (as_bytes (joined username password)) ++ padding n
      → get_header to_lowercase "authorization" ctx ≡ some (String.◌++◌ "Basic " encoded)
      → ((Map.lookup username mw.credentials ≡ some password)
          × (execute to_lowercase as_bytes from_utf8 mw ctx
              ≡ (continue, set_authenticated username [] ctx)))
        ⊎ ((Map.lookup username mw.credentials ≢ some password)
            × (execute to_lowercase as_bytes from_utf8 mw ctx
                ≡ (response (challenge "Invalid credentials" mw.realm), ctx)))
  unfolding execute Answer
  execute-encode mw ctx username password encoded n w b u e h =
      subst (Answer mw username password ctx)
        (sym (
          ap
            (λ (o : Option String). elim o [
              | none ↦ (response (challenge "Authentication required" mw.realm), ctx)
              | some a ↦ check_credentials mw (decode_basic_auth as_bytes from_utf8 a) ctx
            ])
            h
          ∙ ap (λ o. check_credentials mw o ctx)
              (decode_basic_auth-encode as_bytes from_utf8 username password encoded n w b u e)))
        (check_credentials-Answer mw username password ctx)
