-- ===== src/Http/Response/Writer.antt =====
-- src/http/response.rs, the methods of `Response` that write a whole answer or a set of headers.
use Prim.Native.String
use hypern.Http.Response.{
  ResponseSlot, add_header, content_type, finished_with, join_texts, mark_ready, set_body,
  set_status,
}
use hypern.Http.Sse.{SseEvent, format}
use hypern.Prelude.Map
use hypern.Prelude.{
  ℕ, String, Bool, true, false, Option, none, some, List, [], ◌∷◌, if◌then◌else◌, or_default,
  string_eq, nat_eq,
}

-- `json` on the text that the serializer gave; none where it raises.
abbrev pub json : Option String → ResponseSlot → Option ResponseSlot
json none s = none
json (some body) s = some (finished_with "application/json" body s)

abbrev pub html : String → ResponseSlot → ResponseSlot
html = finished_with "text/html; charset=utf-8"

abbrev pub text : String → ResponseSlot → ResponseSlot
text = finished_with "text/plain; charset=utf-8"

abbrev pub xml : String → ResponseSlot → ResponseSlot
xml = finished_with "application/xml"

abbrev pub sse_headers : ResponseSlot → ResponseSlot
sse_headers s = add_header "X-Accel-Buffering" "no" (
    add_header "Connection" "keep-alive"
      (add_header "Cache-Control" "no-cache" (content_type "text/event-stream" s)))

-- `sse`: the events one behind the other, as one body.
abbrev pub format_events : (ℕ → String) → List SseEvent → String
format_events to_string [] = ""
format_events to_string (e ∷ es) = String.◌++◌ (format to_string e) (format_events to_string es)

abbrev pub sse_event :
    (ℕ → String) → String → Option String → Option String → ResponseSlot → ResponseSlot
sse_event to_string bytes event id s =
    let e : SseEvent = record { id = id; event = event; data_text = bytes; retry = none } in
    mark_ready (set_body (format to_string e) (sse_headers s))

-- The messages by their codes, and the first of a code in a list of them.
abbrev pub messages : List (ℕ × String)
messages =
    (100, "Continue")
    ∷ (101, "Switching Protocols")
    ∷ (200, "OK")
    ∷ (201, "Created")
    ∷ (202, "Accepted")
    ∷ (204, "No Content")
    ∷ (301, "Moved Permanently")
    ∷ (302, "Found")
    ∷ (303, "See Other")
    ∷ (304, "Not Modified")
    ∷ (307, "Temporary Redirect")
    ∷ (308, "Permanent Redirect")
    ∷ (400, "Bad Request")
    ∷ (401, "Unauthorized")
    ∷ (403, "Forbidden")
    ∷ (404, "Not Found")
    ∷ (405, "Method Not Allowed")
    ∷ (406, "Not Acceptable")
    ∷ (408, "Request Timeout")
    ∷ (409, "Conflict")
    ∷ (410, "Gone")
    ∷ (413, "Payload Too Large")
    ∷ (415, "Unsupported Media Type")
    ∷ (422, "Unprocessable Entity")
    ∷ (429, "Too Many Requests")
    ∷ (500, "Internal Server Error")
    ∷ (501, "Not Implemented")
    ∷ (502, "Bad Gateway")
    ∷ (503, "Service Unavailable")
    ∷ (504, "Gateway Timeout")
    ∷ []

unfoldable pub status_message : ℕ → String
status_message status = or_default "Unknown Status" (Map.lookup status messages)

abbrev pub send_status : ℕ → ResponseSlot → ResponseSlot
send_status status s = mark_ready (set_body (status_message status) (set_status status s))

-- `end` with the text or bytes of its argument, none if it is neither.
abbrev pub end_with : Option String → ResponseSlot → ResponseSlot
end_with none s = mark_ready s
end_with (some body) s = mark_ready (set_body body s)

abbrev pub redirect : String → ℕ → ResponseSlot → ResponseSlot
redirect url status s = mark_ready (add_header "Location" url (set_status status s))

-- An attribute of a cookie behind what is there.
abbrev pub attribute : String → Option String → String → String
attribute name none cookie = cookie
attribute name (some v) cookie = String.◌++◌ cookie (String.◌++◌ name v)

abbrev pub flag : String → Bool → String → String
flag name true cookie = String.◌++◌ cookie name
flag name false cookie = cookie

-- `max_age` is the text of the number.
unfoldable pub cookie_text :
    String
    → String
    → Option String
    → Option String
    → Option String
    → Bool
    → Bool
    → Option String
    → String
cookie_text name value max_age path domain secure http_only same_site =
    let pair = String.◌++◌ name (String.◌++◌ "=" value) in
    let with_age = attribute "; Max-Age=" max_age pair in
    let with_path = attribute "; Path=" path with_age in
    let with_domain = attribute "; Domain=" domain with_path in
    let with_secure = flag "; Secure" secure with_domain in
    attribute "; SameSite=" same_site (flag "; HttpOnly" http_only with_secure)

abbrev pub set_cookie : String → ResponseSlot → ResponseSlot
set_cookie cookie = add_header "Set-Cookie" cookie

abbrev pub clear_cookie : String → Option String → Option String → ResponseSlot → ResponseSlot
clear_cookie name path domain =
    set_cookie
      (attribute "; Domain=" domain (attribute "; Path=" path (String.◌++◌ name "=; Max-Age=0")))

-- `max_age` is the text of the number.
abbrev pub directives : String → Bool → Bool → Bool → List String
directives max_age private no_cache no_store =
    if no_store
    then "no-store" ∷ []
    else if no_cache
    then "no-cache" ∷ []
    else (if private then "private" else "public") ∷ String.◌++◌ "max-age=" max_age ∷ []

abbrev pub cache_control : String → Bool → Bool → Bool → ResponseSlot → ResponseSlot
cache_control max_age private no_cache no_store =
    add_header "Cache-Control" (join_texts (directives max_age private no_cache no_store))

abbrev pub no_cache : ResponseSlot → ResponseSlot
no_cache s = add_header "Expires" "0" (
    add_header "Pragma" "no-cache"
      (add_header "Cache-Control" "no-cache, no-store, must-revalidate" s))

abbrev pub optional_header : String → Option String → ResponseSlot → ResponseSlot
optional_header name none s = s
optional_header name (some v) s = add_header name v s

abbrev pub joined : Option (List String) → Option String
joined none = none
joined (some xs) = some (join_texts xs)

-- `max_age` is the text of the number.
abbrev pub cors :
    String
    → Option (List String)
    → Option (List String)
    → Bool
    → Option String
    → ResponseSlot
    → ResponseSlot
cors origin methods headers credentials max_age s =
    let allowed = optional_header "Access-Control-Allow-Headers" (joined headers) (
      optional_header "Access-Control-Allow-Methods" (joined methods)
        (add_header "Access-Control-Allow-Origin" origin s)) in
    optional_header "Access-Control-Max-Age" max_age (
      if credentials then add_header "Access-Control-Allow-Credentials" "true" allowed else allowed)

abbrev pub attachment : Option String → ResponseSlot → ResponseSlot
attachment none = add_header "Content-Disposition" "attachment"
attachment (some f) =
    add_header "Content-Disposition" (String.◌++◌ "attachment; filename=\"" (String.◌++◌ f "\""))
