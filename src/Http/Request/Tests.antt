-- ===== src/Http/Request/Tests.antt =====
-- Concrete requests.
use hypern.Http.Headers
use hypern.Http.Headers.{HeaderMap}
use hypern.Http.Request
use hypern.Http.Request.{
  Request, AxumRequest, accepts, cookie, cookie_from, cookies, cookies_from, from_axum,
  first_header, has_body, ip, subdomains,
}
use hypern.Http.Request.Cookies.{lookup-cookies}
use hypern.Middleware.Context.{HttpMethod}
use hypern.Prelude.Map
use hypern.Prelude.Text.{contains, split, split_once, trim_start_matches}
use hypern.Prelude.{
  ℕ, String, ◌≡◌, refl, Option, none, some, [], ◌∷◌, arith, if◌then◌else◌, ◌==◌, string_eq, nat_eq,
}

abbrev same : String → String
same s = s

abbrev trim : String → String
trim s = trim_start_matches b' ' s

abbrev one_hash : String → HttpMethod → ℕ
one_hash path method = 1

abbrev read_usize : String → Option ℕ
read_usize s = if s == "3" then some 3 else none

abbrev hello : Request
hello = from_axum same same read_usize one_hash (record {
  path_and_query = some ("/hello", some "a=1");
  method = some HttpMethod.get;
  headers =
      ("cookie", some "x=1; y=2; x=3")
      ∷ ("host", some "a.b.example.org:80")
      ∷ ("accept", some "text/html")
      ∷ ("accept", some "application/json")
      ∷ [];
  body = some "ignored";
})

-- A name that is there twice: the first value, and the last.
cookie_test :
    (cookie same trim "x" hello ≡ some "1") × (Map.lookup "x" (cookies same trim hello) ≡ some "3")
unfolding from_axum Headers.from_list Headers.get Map.insert Map.lookup cookie cookie_from cookies
    cookies_from split split_once trim_start_matches contains has_body first_header
cookie_test = (refl, refl)

-- A header that comes twice is known by its last value.
accepts_test : accepts same trim ("html" ∷ []) hello ≡ none
unfolding from_axum Headers.from_list Headers.get Map.insert Map.lookup accepts Request.accepts_from
    contains has_body first_header
accepts_test = refl

-- The body of a GET request without a content length is not read.
body_test : hello.body ≡ none
unfolding from_axum has_body first_header contains
body_test = refl

subdomains_test : subdomains same trim hello ≡ "a" ∷ "b" ∷ []
unfolding from_axum Headers.from_list Headers.get Map.insert Map.lookup subdomains Request.hostname
    contains split has_body first_header
subdomains_test = refl

lookup-cookies_example : Map.lookup "y" (cookies same trim hello) ≡ cookie same trim "y" hello
unfolding from_axum Headers.from_list Headers.get Map.insert Map.lookup contains split split_once
    trim_start_matches has_body first_header
lookup-cookies_example = lookup-cookies same trim "y" hello "x=1; y=2; x=3" refl (omega arith)
