-- ===== src/Http/Response/Sending.antt =====
-- src/http/response.rs, `ResponseSlot::into_response`.
use hypern.Core.Worker.{Http, HttpResponse, insert_header}
use hypern.Http.Response.{ResponseSlot, BodyKind, buffered, streaming}
use hypern.Prelude.{
  String, not, none, some, List, [], ◌∷◌, ◌++◌, if◌then◌else◌, ◌==◌, keep, any, string_eq, nat_eq,
}

module _ (http : Http) where
  -- Names and values that are none are left out.
  unfoldable pub valid_headers : List (String × String) → List (String × String)
  valid_headers [] = []
  valid_headers ((key, value) ∷ hs) =
      let rest = valid_headers hs in
      elim (http.header_name key) [
        | none ↦ rest
        | some name ↦ if http.is_header_value value then (name, value) ∷ rest else rest
      ]

  -- `entry(SERVER).or_insert`
  abbrev pub with_server : List (String × String) → List (String × String)
  with_server hs = if any (λ h. h.0 == "server") hs then hs else hs ++ ("server", "Hypern") ∷ []

  abbrev pub remove_name : String → List (String × String) → List (String × String)
  remove_name name hs = keep (λ h. not (h.0 == name)) hs

  -- The length of a buffered body; a streaming one is chunked and has none.
  abbrev pub framed : BodyKind → List (String × String) → List (String × String)
  framed (buffered body) hs =
      insert_header http "content-length" (http.to_string (http.byte_length body)) hs
  framed (streaming rx) hs =
      remove_name "content-length" (insert_header http "transfer-encoding" "chunked" hs)

  abbrev pub body_text : BodyKind → String
  body_text (buffered body) = body
  body_text (streaming rx) = rx

  unfoldable pub into_response : ResponseSlot → HttpResponse
  unfolding valid_headers
  into_response s = record {
    status = if http.is_status s.status then s.status else 200;
    headers = framed s.body (with_server (valid_headers s.headers));
    body = body_text s.body;
  }
