-- ===== src/Middleware/Cors/Tests.antt =====
-- Tests of the CORS middleware, and the theorems at concrete inputs.
use hypern.Middleware.Context.{
  MiddlewareContext, response, forbidden, options, new_context, get_header,
}
use hypern.Middleware.Cors.{
  CorsConfig, default_config, is_origin_allowed, join, add_headers, preflight, execute,
}
use hypern.Middleware.Cors.Origins.{header_value, execute-origin, preflight-add_headers}
use hypern.Prelude.Map
use hypern.Prelude.{
  ℕ, String, ◌≡◌, refl, true, none, some, [], ◌∷◌, arith, eqb, if◌then◌else◌, string_eq, nat_eq,
}

cors : Unit {0}
unfolding is_origin_allowed join add_headers preflight execute get_header Map.lookup
cors = tt

abbrev same_text : String → String
same_text s = s

abbrev printed : ℕ → String
printed n = if eqb n 86400 then "86400" else "?"

abbrev request : MiddlewareContext
request = new_context "/" options (("origin", "https://a.b") ∷ []) "" none "r"

abbrev with_credentials : CorsConfig
with_credentials = record default_config { allow_credentials = true }

abbrev listed : CorsConfig
listed = record default_config { allowed_origins = "https://c.d" ∷ [] }

join_test : join ("a" ∷ "b" ∷ "c" ∷ []) ≡ "a, b, c"
unfolding cors
join_test = refl

refused_test :
    execute same_text printed listed request ≡ (response (forbidden "Origin not allowed"), request)
unfolding cors
refused_test =
    execute-origin same_text printed listed request "https://a.b" refl
      (λ p. absurd (ground (arith, (string_eq.beq_iff "https://a.b" "").1 p)))

credentials_test :
    (header_value "Access-Control-Allow-Origin"
        (preflight printed with_credentials "https://a.b").headers
      ≡ some "*")
    × (header_value "Access-Control-Allow-Credentials"
          (preflight printed with_credentials "https://a.b").headers
        ≡ some "true")
    × (header_value "Access-Control-Allow-Origin"
          (add_headers with_credentials "https://a.b" request).response_headers
        ≡ some "https://a.b")
unfolding cors
credentials_test =
    preflight-add_headers same_text printed with_credentials request "https://a.b" refl refl refl
