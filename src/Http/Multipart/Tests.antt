-- ===== src/Http/Multipart/Tests.antt =====
-- A form with a text and a file, and the theorem at it.
use hypern.Http.Multipart.{
  FormData, add_field, add_file, add_part, add_parts, crlf, extract_boundary, boundary_from,
  find_bytes, find_double_crlf, headers_from, new_file, parse_content_disposition, parse_multipart,
  parse_part_headers, read_parameters, skip_crlf, split_crlf, split_from, split_multipart,
}
use hypern.Http.Multipart.Splitting.{encoded, parse_multipart-encoded}
use hypern.Prelude.Map
use hypern.Prelude.Text.{
  codes, split, split_once, strip_prefix, trim_end_matches, trim_start_matches,
}
use hypern.Prelude.{
  ℕ, String, ◌≡◌, refl, some, List, [], ◌∷◌, ◌++◌, eqb, if◌then◌else◌, ◌==◌, string_eq, nat_eq,
}

abbrev text_part : List ℕ
text_part = codes "A" ++ crlf ++ crlf ++ codes "hello" ++ crlf

abbrev file_part : List ℕ
file_part = codes "B" ++ crlf ++ crlf ++ codes "xy" ++ crlf

-- What the bytes of the parts stand for.
abbrev decoded : List ℕ → String
decoded [] = ""
decoded (c ∷ s) =
    if eqb c b'A'
    then "Content-Disposition: form-data; name=\"a\""
    else if eqb c b'B'
    then "Content-Disposition: form-data; name=\"b\"; filename=\"c.txt\"\r\nContent-Type: text/plain"
    else "hello"

abbrev lower : String → String
lower s =
    if s == "Content-Disposition"
    then "content-disposition"
    else if s == "Content-Type"
    then "content-type"
    else s

abbrev trim : String → String
trim s = trim_start_matches b' ' s

abbrev same : String → String
same s = s

abbrev parsed : FormData
parsed = record {
  fields = ("a", "hello") ∷ [];
  files = ("b", new_file "b" "c.txt" "text/plain" (codes "xy") ∷ []) ∷ [];
}

form : Unit {0}
unfolding add_field add_file add_part add_parts find_bytes find_double_crlf headers_from
    parse_content_disposition parse_multipart parse_part_headers read_parameters skip_crlf
    split_crlf split_from split_multipart Map.lookup Map.insert split split_once strip_prefix
    trim_end_matches trim_start_matches
form = tt

parse_multipart-encoded_example :
    parse_multipart trim lower decoded same
      (codes "pre"
        ++ ((codes "--" ++ codes "XX")
            ++ encoded (codes "--" ++ codes "XX") (text_part ∷ file_part ∷ []) (codes "end")))
      (codes "XX")
    ≡ parsed
unfolding form
parse_multipart-encoded_example =
    parse_multipart-encoded trim lower decoded same (codes "XX") (codes "pre") text_part
      (file_part ∷ []) (codes "end") refl (refl, (refl, tt))

extract_boundary_test : extract_boundary trim "multipart/form-data; boundary=\"XX\"" ≡ some "XX"
unfolding form boundary_from extract_boundary
extract_boundary_test = refl
