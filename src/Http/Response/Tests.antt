-- ===== src/Http/Response/Tests.antt =====
-- Responses as handlers write them.
use hypern.Core.Worker.{Http}
use hypern.Http.Response.{
  ResponseSlot, BodyKind, add_header, append, content_type, first_value, new, set_streaming_body,
  vary,
}
use hypern.Http.Response.Lengths.{values_of, values_of-into_response}
use hypern.Http.Response.Sending.{into_response, valid_headers}
use hypern.Http.Response.Writer.{cookie_text, html, send_status, status_message}
use hypern.Prelude.Map
use hypern.Prelude.Text.{contains}
use hypern.Prelude.{
  String, ◌≡◌, refl, true, false, not, none, some, [], ◌∷◌, leb, if◌then◌else◌, ◌==◌, string_eq,
  nat_eq,
}

abbrev same : String → String
same s = s

abbrev http : Http
http = record {
  header_name = some;
  is_header_value = λ v. not (v == "bad");
  is_status = λ n. leb 100 n;
  to_string = λ n. if n == 2 then "2" else "n";
  byte_length = λ s. if s == "hi" then 2 else 0;
}

abbrev typed : ResponseSlot
typed = html "hi" (add_header "content-length" "99" (content_type "text/csv" new))

-- A type that was set before stays in front of the one of `html`.
types_test : values_of "Content-Type" typed.headers ≡ "text/csv" ∷ "text/html; charset=utf-8" ∷ []
types_test = refl

append_test : (append same "Vary" "b" (add_header "Vary" "a" new)).headers ≡ ("Vary", "a, b") ∷ []
unfolding append first_value
append_test = refl

vary_test : vary same "a" (vary same "a" new) ≡ vary same "a" new
unfolding vary first_value contains
vary_test = refl

status_test : (send_status 404 new).body ≡ BodyKind.buffered "Not Found"
unfolding status_message Map.lookup
status_test = refl

cookie_test :
    cookie_text "a" "1" (some "60") (some "/") none true false (some "Lax")
    ≡ "a=1; Max-Age=60; Path=/; Secure; SameSite=Lax"
unfolding cookie_text
cookie_test = refl

values_of-into_response_example :
    values_of "content-length" (into_response http typed).headers ≡ "2" ∷ []
values_of-into_response_example = values_of-into_response http typed

streaming_test :
    (into_response http (set_streaming_body "rx" typed)).headers
    ≡ ("Content-Type", "text/csv")
      ∷ ("Content-Type", "text/html; charset=utf-8")
      ∷ ("server", "Hypern")
      ∷ ("transfer-encoding", "chunked")
      ∷ []
unfolding into_response valid_headers
streaming_test = refl
