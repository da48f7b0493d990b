-- ===== src/Http/Response/Lengths.antt =====
-- The length that a response claims.
use hypern.Core.Worker.{Http, insert_header}
use hypern.Http.Response.{ResponseSlot, BodyKind, buffered, streaming}
use hypern.Http.Response.Sending.{framed, remove_name, into_response, with_server, valid_headers}
use hypern.Prelude.{
  String, ◌≡◌, refl, ◌∙◌, inl, inr, List, [], ◌∷◌, ◌++◌, arith, if◌then◌else◌, Bool-cases, ◌==◌,
  string_eq, nat_eq,
}

-- The values under a name.
abbrev pub values_of : String → List (String × String) → List String
values_of name [] = []
values_of name ((n, v) ∷ hs) = let rest = values_of name hs in if n == name then v ∷ rest else rest

values_of-append :
    (name : String) (xs ys : List (String × String))
    → values_of name (xs ++ ys) ≡ values_of name xs ++ values_of name ys
values_of-append name [] ys = refl
values_of-append name ((n, v) ∷ xs) ys = ground (arith, values_of-append name xs ys)

module _ (http : Http) where
  values_of-remove_name :
      (name : String) (hs : List (String × String)) → values_of name (remove_name http name hs) ≡ []
  values_of-remove_name name [] = refl
  values_of-remove_name name ((n, v) ∷ hs) = elim (Bool-cases (n == name)) [
    | inl e ↦ rw e (values_of-remove_name name hs)
    | inr e ↦ rw e (rw e (values_of-remove_name name hs))
  ]

  abbrev pub claimed : BodyKind → List String
  claimed (buffered body) = http.to_string (http.byte_length body) ∷ []
  claimed (streaming rx) = []

  values_of-framed :
      (b : BodyKind) (hs : List (String × String))
      → values_of "content-length" (framed http b hs) ≡ claimed b
  values_of-framed (buffered body) hs =
      values_of-append "content-length" (remove_name http "content-length" hs) _
      ∙ rw (values_of-remove_name "content-length" hs)
  values_of-framed (streaming rx) hs =
      values_of-remove_name "content-length" (insert_header http "transfer-encoding" "chunked" hs)

  -- Whatever headers a handler set, a response with a buffered body has one content-length, the length
  -- of its body, and a streaming one has none.
  pub values_of-into_response :
      (s : ResponseSlot)
      → values_of "content-length" (into_response http s).headers ≡ claimed s.body
  unfolding into_response
  values_of-into_response s =
      values_of-framed s.body (with_server http (valid_headers http s.headers))
