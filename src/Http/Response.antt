-- ===== src/Http/Response.antt =====
-- src/http/response.rs, `ResponseSlot` and the `Response` that a handler writes to. A body is a
-- text; a streaming body is the text that its channel will give. Names of the headers stay as they
-- were written until `into_response`. Parameters: the http crate (`Http`), `to_lowercase`, and for
-- JSON the texts that the serializer gave.
pub mod Writer
pub mod Sending
mod Lengths
mod Tests
use Prim.Native.String
use text.Mathlib.Text.{starts_with}
use hypern.Core.Worker.{Http, HttpResponse, insert_header}
use hypern.Http.Sse.{SseEvent, format}
use hypern.Prelude.Map
use hypern.Prelude.Text.{contains}
use hypern.Prelude.{
  ℕ, ◌<◌, String, Bool, true, false, not, Option, none, some, List, [], ◌∷◌, ◌++◌, map,
  if◌then◌else◌, ◌==◌, keep, string_eq, nat_eq,
}

pub data BodyKind : Type 0 where
  buffered streaming : String → BodyKind

pub record ResponseSlot : Type 0 where
  pub status : ℕ
  pub headers : List (String × String)
  pub body : BodyKind
  pub ready : Bool
  pub sent : Bool
  pub is_streaming : Bool

-- ResponseSlot::new
abbrev pub new : ResponseSlot
new = record {
  status = 200;
  headers = [];
  body = buffered "";
  ready = false;
  sent = false;
  is_streaming = false;
}

abbrev pub set_status : ℕ → ResponseSlot → ResponseSlot
set_status status s = record s { status = status }

abbrev pub set_headers : List (String × String) → ResponseSlot → ResponseSlot
set_headers headers s = record s { headers = headers }

abbrev pub add_header : String → String → ResponseSlot → ResponseSlot
add_header key value s = record s { headers = s.headers ++ (key, value) ∷ [] }

abbrev pub set_body : String → ResponseSlot → ResponseSlot
set_body body s = record s { body = buffered body }

abbrev pub appended : BodyKind → String → BodyKind
appended (buffered buf) more = buffered (String.◌++◌ buf more)
appended (streaming rx) more = streaming rx

abbrev pub append_body : String → ResponseSlot → ResponseSlot
append_body more s = record s { body = appended s.body more }

abbrev pub set_streaming_body : String → ResponseSlot → ResponseSlot
set_streaming_body receiver s = record s { body = streaming receiver; is_streaming = true }

abbrev pub mark_ready : ResponseSlot → ResponseSlot
mark_ready s = record s { ready = true }

abbrev pub mark_sent : ResponseSlot → ResponseSlot
mark_sent s = record s { sent = true }

module _ (to_lowercase : String → String) where
  unfoldable pub first_value : String → List (String × String) → Option String
  first_value key [] = none
  first_value key ((k, v) ∷ hs) =
      let rest = first_value key hs in if to_lowercase k == to_lowercase key then some v else rest

  abbrev pub get_header : String → ResponseSlot → Option String
  get_header key s = first_value key s.headers

  abbrev pub remove_header : String → ResponseSlot → ResponseSlot
  remove_header key s = record s {
    headers = keep (λ h. not (to_lowercase h.0 == to_lowercase key)) s.headers;
  }

  -- Response::append
  unfoldable pub append : String → String → ResponseSlot → ResponseSlot
  append key value s = elim (get_header key s) [
    | some existing ↦
        add_header key (String.◌++◌ existing (String.◌++◌ ", " value)) (remove_header key s)
    | none ↦ add_header key value s
  ]

  unfoldable pub vary : String → ResponseSlot → ResponseSlot
  vary field s = elim (get_header "Vary" s) [
    | some existing ↦
        if not (contains (to_lowercase existing) (to_lowercase field))
        then add_header "Vary" (String.◌++◌ existing (String.◌++◌ ", " field))
            (remove_header "Vary" s)
        else s
    | none ↦ add_header "Vary" field s
  ]

  -- `send` of a text, of bytes and, below, of None; of anything else it does what `json` does.
  abbrev pub default_type : String → ResponseSlot → ResponseSlot
  default_type content_type s = elim (get_header "Content-Type" s) [
    | none ↦ add_header "Content-Type" content_type s
    | some v ↦ s
  ]

  abbrev pub send_text : String → ResponseSlot → ResponseSlot
  send_text text s = mark_ready (set_body text (default_type "text/html; charset=utf-8" s))

  abbrev pub send_bytes : String → ResponseSlot → ResponseSlot
  send_bytes bytes s = mark_ready (set_body bytes (default_type "application/octet-stream" s))

abbrev pub send_none : ResponseSlot → ResponseSlot
send_none s = mark_ready (set_body "" s)

abbrev pub join_texts : List String → String
join_texts [] = ""
join_texts (x ∷ []) = x
join_texts (x ∷ y ∷ ys) = String.◌++◌ x (String.◌++◌ ", " (join_texts (y ∷ ys)))

abbrev pub link_of : String × String → String
link_of (rel, url) =
    String.◌++◌ "<" (String.◌++◌ url (String.◌++◌ ">; rel=\"" (String.◌++◌ rel "\"")))

-- The relations and their targets, as texts.
abbrev pub links : List (String × String) → ResponseSlot → ResponseSlot
links parts = add_header "Link" (join_texts (map link_of parts))

abbrev pub location : String → ResponseSlot → ResponseSlot
location url = add_header "Location" url

abbrev pub etag : String → ResponseSlot → ResponseSlot
etag tag =
    add_header "ETag"
      (if starts_with tag "\"" then tag else String.◌++◌ "\"" (String.◌++◌ tag "\""))

abbrev pub last_modified : String → ResponseSlot → ResponseSlot
last_modified date = add_header "Last-Modified" date

abbrev pub expires : String → ResponseSlot → ResponseSlot
expires date = add_header "Expires" date

abbrev pub content_type : String → ResponseSlot → ResponseSlot
content_type t = add_header "Content-Type" t

-- A type, a body and the end, as `json`, `html`, `text` and `xml` set them.
abbrev pub finished_with : String → String → ResponseSlot → ResponseSlot
finished_with t body s = mark_ready (set_body body (content_type t s))
