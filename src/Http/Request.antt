-- ===== src/Http/Request.antt =====
-- src/http/request.rs, `Request` and `QueryParams`. Fields behind locks are plain fields of a record
-- that each call returns anew. A body is a text. Parameters: `to_lowercase`, `trim`,
-- `form_parse` (`form_urlencoded::parse` collected into a map) and the hash of a path.
mod Cookies
mod Tests
use Prim.Native.String
use hypern.Http.Headers
use hypern.Http.Headers.{HeaderMap}
use hypern.Middleware.Context.{HttpMethod}
use hypern.Prelude.Map
use hypern.Prelude.Map.{Map}
use hypern.Prelude.Options.{◌>>=◌}
use hypern.Prelude.Text.{contains, split, split_once}
use hypern.Prelude.{
  ℕ, ◌-◌, ◌*◌, ◌/◌, ◌%◌, String, Bool, true, false, not, ◌||◌, Option, none, some, List, [], ◌∷◌,
  map, ltb, if◌then◌else◌, ◌==◌, is_some, or_default, length, take, string_eq, nat_eq,
}

pub record QueryParams : Type 0 where
  pub raw : String
  pub parsed : Option (Map String String)

-- QueryParams::new
abbrev pub new_query : String → QueryParams
new_query raw = record { raw = raw; parsed = none }

module _ (form_parse : String → Map String String) where
  -- QueryParams::parse: parsed on the first access only.
  unfoldable pub parse : QueryParams → QueryParams × Map String String
  parse q = elim q.parsed [
    | some map ↦ (q, map)
    | none ↦
        let map = if q.raw == "" then [] else form_parse q.raw in
        (record q { parsed = some map }, map)
  ]

  -- QueryParams::get
  unfoldable pub get_param : String → QueryParams → QueryParams × Option String
  unfolding parse
  get_param key q = let (kept, map) = parse q in (kept, Map.lookup key map)

pub record Request : Type 0 where
  pub path : String
  pub method : HttpMethod
  pub headers : HeaderMap
  pub query_string : String
  pub query_params : QueryParams
  pub path_params : Map String String
  pub body : Option String
  pub route_hash : ℕ

-- Request::new, with the hash of its path and method.
abbrev pub new : String → HttpMethod → HeaderMap → String → Option String → ℕ → Request
new path method headers query_string body route_hash = record {
  path = path;
  method = method;
  headers = headers;
  query_string = query_string;
  query_params = new_query query_string;
  path_params = [];
  body = body;
  route_hash = route_hash;
}

abbrev pub set_path_params : Map String String → Request → Request
set_path_params params r = record r { path_params = params }

abbrev pub take_body : Request → Request × Option String
take_body r = (record r { body = none }, r.body)

abbrev pub body_ref : Request → Option String
body_ref r = r.body

abbrev pub headers_map : Request → Map String String
headers_map r = r.headers.headers

abbrev pub param : String → Request → Option String
param name r = Map.lookup name r.path_params

-- The first of the parts of a split, of which there is always one.
abbrev first_part : String → List String → String
first_part whole [] = whole
first_part whole (p ∷ ps) = p

-- The cookie's value where it has the name, and what the later cookies give else.
abbrev pub pick : Option (String × String) → String → Option String → Option String
pick (some (n, v)) name later = if n == name then some v else later
pick none name later = later

abbrev pub grown : Option (String × String) → Map String String → Map String String
grown (some (n, v)) result = Map.insert n v result
grown none result = result

module _ (to_lowercase trim : String → String) where
  abbrev pub header : String → Request → Option String
  header name r = Headers.get to_lowercase name r.headers

  -- What `accepts` looks for in the header.
  abbrev media_type : String → String
  media_type t =
      let lower = to_lowercase t in
      if lower == "html"
      then "text/html"
      else if lower == "json"
      then "application/json"
      else if lower == "xml"
      then "application/xml"
      else if lower == "text"
      then "text/plain"
      else t

  unfoldable pub accepts_from : String → List String → Option String
  accepts_from accept [] = none
  accepts_from accept (t ∷ types) =
      let later = accepts_from accept types in
      if contains accept (media_type t) || contains accept "*/*" then some t else later

  unfoldable pub accepts : List String → Request → Option String
  accepts types r = do accept ← header "accept" r; accepts_from accept types

  abbrev pub accepts_json : Request → Bool
  accepts_json r = is_some (accepts ("json" ∷ []) r)

  abbrev pub accepts_html : Request → Bool
  accepts_html r = is_some (accepts ("html" ∷ []) r)

  unfoldable pub ip : Request → Option String
  ip r = elim (header "x-forwarded-for" r) [
    | some forwarded ↦ some (trim (first_part forwarded (split b',' forwarded)))
    | none ↦ header "x-real-ip" r
  ]

  unfoldable pub ips : Request → List String
  ips r = elim (header "x-forwarded-for" r) [
    | some forwarded ↦ map trim (split b',' forwarded)
    | none ↦ []
  ]

  abbrev pub has_value : String → String → Request → Bool
  has_value name value r = elim (header name r) [ some v ↦ to_lowercase v == value | none ↦ false ]

  abbrev pub xhr : Request → Bool
  xhr = has_value "x-requested-with" "xmlhttprequest"

  abbrev pub secure : Request → Bool
  secure = has_value "x-forwarded-proto" "https"

  unfoldable pub hostname : Request → Option String
  hostname r = elim (header "host" r) [ some h ↦ some (first_part h (split b':' h)) | none ↦ none ]

  unfoldable pub subdomains : Request → List String
  unfolding hostname
  subdomains r = elim (hostname r) [
    | some h ↦
        let parts = split b'.' h in
        if ltb 2 (length parts) then take (length parts - 2) parts else []
    | none ↦ []
  ]

  abbrev pub url : Request → String
  url r =
      if r.query_string == "" then r.path else String.◌++◌ r.path (String.◌++◌ "?" r.query_string)

  abbrev pub protocol : Request → String
  protocol r = if secure r then "https" else "http"

  abbrev same_etag : Option String → Option String → Bool
  same_etag (some if_none_match) (some etag) = if_none_match == etag || if_none_match == "*"
  same_etag _ _ = false

  abbrev same_time : Option String → Option String → Bool
  same_time (some if_modified) (some last_modified) = if_modified == last_modified
  same_time _ _ = false

  unfoldable pub fresh : Option String → Option String → Request → Bool
  fresh etag last_modified r =
      same_etag (header "if-none-match" r) etag
      || same_time (header "if-modified-since" r) last_modified

  unfoldable pub stale : Option String → Option String → Request → Bool
  unfolding fresh
  stale etag last_modified r = not (fresh etag last_modified r)

  -- One cookie of the header, a name and a value around the first `=`.
  abbrev pub cookie_pair : String → Option (String × String)
  cookie_pair c = split_once b'=' (trim c)

  unfoldable pub cookie_from : String → List String → Option String
  cookie_from name [] = none
  cookie_from name (c ∷ cs) = let later = cookie_from name cs in pick (cookie_pair c) name later

  unfoldable pub cookie : String → Request → Option String
  cookie name r = do cookies ← header "cookie" r; cookie_from name (split b';' cookies)

  unfoldable pub cookies_from : List String → Map String String → Map String String
  cookies_from [] result = result
  cookies_from (c ∷ cs) result = cookies_from cs (grown (cookie_pair c) result)

  unfoldable pub cookies : Request → Map String String
  cookies r = elim (header "cookie" r) [ some s ↦ cookies_from (split b';' s) [] | none ↦ [] ]

  abbrev pub content_type : Request → Option String
  content_type r = header "content-type" r

  abbrev pub is_content_type : String → Request → Bool
  is_content_type wanted r = elim (content_type r) [
    | some ct ↦ contains (to_lowercase ct) (to_lowercase wanted)
    | none ↦ false
  ]

  abbrev pub is_json : Request → Bool
  is_json = is_content_type "application/json"

  abbrev pub is_form : Request → Bool
  is_form = is_content_type "application/x-www-form-urlencoded"

  abbrev pub is_multipart : Request → Bool
  is_multipart = is_content_type "multipart/"

-- A request as axum hands it over: path and query, the method unless it is an extension, the
-- headers in lower case, and what `to_bytes` makes of the body with its limit of 10 MB, none on
-- an error.
pub record AxumRequest : Type 0 where
  pub path_and_query : Option (String × Option String)
  pub method : Option HttpMethod
  pub headers : List (String × Option String)
  pub body : Option String

-- HttpMethod::from_axum
abbrev pub from_axum_method : Option HttpMethod → HttpMethod
from_axum_method none = HttpMethod.get
from_axum_method (some m) = m

-- Whether the body is read whatever the content length says.
abbrev pub always_read : HttpMethod → Bool
always_read HttpMethod.get = false
always_read HttpMethod.head = false
always_read HttpMethod.options = false
always_read HttpMethod.delete = false
always_read _ = true

module _ (to_lowercase percent_decode : String → String) (parse_usize : String → Option ℕ)
    (path_hash : String → HttpMethod → ℕ) where
  -- The first header of the name.
  unfoldable pub first_header : String → List (String × Option String) → Option String
  first_header name [] = none
  first_header name ((n, v) ∷ hs) = let rest = first_header name hs in if n == name then v else rest

  unfoldable pub has_body : List (String × Option String) → Bool
  has_body headers = elim (do s ← first_header "content-length" headers; parse_usize s) [
    | some len ↦ ltb 0 len
    | none ↦ false
  ]

  abbrev pub path_of : Option (String × Option String) → String × String
  path_of none = ("/", "")
  path_of (some (raw, query)) =
      (if contains raw "%" then percent_decode raw else raw, or_default "" query)

  unfoldable pub from_axum : AxumRequest → Request
  from_axum a =
      let (path, query_string) = path_of a.path_and_query in
      let method = from_axum_method a.method in
      let body = if always_read method || has_body a.headers then a.body else none in
      new path method (Headers.from_axum to_lowercase a.headers) query_string body
        (path_hash path method)
