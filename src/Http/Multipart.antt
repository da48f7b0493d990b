-- ===== src/Http/Multipart.antt =====
-- src/http/multipart.rs: uploaded files, form data and the parser of multipart bodies, over bytes.
-- Parameters: `from_utf8_lossy`, `to_lowercase`, `trim` of white space, and the bytes of a text.
mod Splitting
mod Tests
use Prim.Native.Char.{Char, code}
use Prim.Native.String
use text.Mathlib.Text.{starts_with}
use hypern.Prelude.Map
use hypern.Prelude.Map.{Map}
use hypern.Prelude.Text.{split, split_once, strip_prefix, trim_end_matches, trim_start_matches}
use hypern.Prelude.{
  ℕ, zero, suc, ◌+◌, ◌-◌, String, Bool, true, false, ◌&&◌, Option, none, some, List, [], ◌∷◌, ◌++◌,
  ltb, leb, eqb, if◌then◌else◌, ◌==◌, or_default, length, is_empty, take, drop, string_eq, nat_eq,
}

pub record UploadedFile : Type 0 where
  pub filename : String
  pub name : String
  pub content_type : String
  pub size : ℕ
  pub content : List ℕ

-- UploadedFile::new
abbrev pub new_file : String → String → String → List ℕ → UploadedFile
new_file name filename content_type content = record {
  filename = filename;
  name = name;
  content_type = content_type;
  size = length content;
  content = content;
}

abbrev pub is_image : UploadedFile → Bool
is_image f = starts_with f.content_type "image/"

abbrev pub is_video : UploadedFile → Bool
is_video f = starts_with f.content_type "video/"

abbrev pub is_audio : UploadedFile → Bool
is_audio f = starts_with f.content_type "audio/"

abbrev pub is_pdf : UploadedFile → Bool
is_pdf f = f.content_type == "application/pdf"

pub record FormData : Type 0 where
  pub fields : Map String String
  pub files : Map String (List UploadedFile)

-- FormData::new
abbrev pub new : FormData
new = record { fields = []; files = [] }

abbrev pub get : String → FormData → Option String
get key d = Map.lookup key d.fields

abbrev pub get_or : String → Option String → FormData → Option String
get_or key default d = elim (Map.lookup key d.fields) [ some v ↦ some v | none ↦ default ]

abbrev pub first_of : List UploadedFile → Option UploadedFile
first_of [] = none
first_of (f ∷ fs) = some f

abbrev pub file : String → FormData → Option UploadedFile
file key d = first_of (or_default [] (Map.lookup key d.files))

abbrev pub files_list : String → FormData → List UploadedFile
files_list key d = or_default [] (Map.lookup key d.files)

abbrev pub flatten : List (List UploadedFile) → List UploadedFile
flatten [] = []
flatten (fs ∷ rest) = fs ++ flatten rest

abbrev pub all_files : FormData → List UploadedFile
all_files d = flatten (Map.values d.files)

abbrev pub field_names : FormData → List String
field_names d = Map.keys d.fields

abbrev pub file_names : FormData → List String
file_names d = Map.keys d.files

abbrev pub has : String → FormData → Bool
has key d = Map.contains_key key d.fields

abbrev pub has_file : String → FormData → Bool
has_file key d = Map.contains_key key d.files

abbrev pub file_count : FormData → ℕ
file_count d = length (all_files d)

unfoldable pub add_field : String → String → FormData → FormData
add_field name value d = record d { fields = Map.insert name value d.fields }

unfoldable pub add_file : String → UploadedFile → FormData → FormData
add_file name f d = record d {
  files = Map.insert name (or_default [] (Map.lookup name d.files) ++ f ∷ []) d.files;
}

-- `slice::starts_with`
abbrev pub starts_with_bytes : List ℕ → List ℕ → Bool
starts_with_bytes s [] = true
starts_with_bytes [] (n ∷ ns) = false
starts_with_bytes (c ∷ s) (n ∷ ns) = eqb c n && starts_with_bytes s ns

abbrev pub one_later : Option ℕ → Option ℕ
one_later none = none
one_later (some n) = some (suc n)

-- The first window that is the needle, which is not empty.
unfoldable pub find_bytes : List ℕ → List ℕ → Option ℕ
find_bytes [] needle = none
find_bytes (c ∷ s) needle =
    let later = find_bytes s needle in
    if starts_with_bytes (c ∷ s) needle then some 0 else one_later later

abbrev pub crlf : List ℕ
crlf = b'\r' ∷ b'\n' ∷ []

abbrev pub dashes : List ℕ
dashes = b'-' ∷ b'-' ∷ []

unfoldable pub find_double_crlf : List ℕ → Option ℕ
unfolding find_bytes
find_double_crlf s = find_bytes s (crlf ++ crlf)

-- A CRLF behind the boundary is skipped where more than it is left.
unfoldable pub skip_crlf : List ℕ → List ℕ
skip_crlf s = if ltb 2 (length s) && starts_with_bytes s crlf then drop 2 s else s

-- The loop of `split_multipart`, on what is left of the body; each round takes a boundary, so the
-- length of the body is enough fuel.
unfoldable pub split_from : ℕ → List ℕ → List ℕ → List (List ℕ)
split_from zero rest boundary = []
split_from (suc fuel) rest boundary = elim (find_bytes rest boundary) [
  | none ↦ if is_empty rest then [] else rest ∷ []
  | some end ↦
      let left = drop (end + length boundary) rest in
      let more = split_from fuel (skip_crlf left) boundary in
      if starts_with_bytes left dashes then take end rest ∷ [] else take end rest ∷ more
]

abbrev pub after_first : Option ℕ → List ℕ → List ℕ → List ℕ
after_first none body boundary = body
after_first (some pos) body boundary = skip_crlf (drop (pos + length boundary) body)

unfoldable pub split_multipart : List ℕ → List ℕ → List (List ℕ)
unfolding split_from find_bytes skip_crlf
split_multipart body boundary =
    split_from (suc (length body)) (after_first (find_bytes body boundary) body boundary) boundary

-- `trim_matches('"')`
abbrev pub unquoted : String → String
unquoted s = trim_end_matches b'"' (trim_start_matches b'"' s)

-- `split("\r\n")`
abbrev pub onto_first : Char → List String → List String
onto_first c [] = String.◌∷◌ c "" ∷ []
onto_first c (l ∷ ls) = String.◌∷◌ c l ∷ ls

unfoldable pub split_crlf : String → List String
split_crlf String.[] = "" ∷ []
split_crlf (String.◌∷◌ c String.[]) = String.◌∷◌ c "" ∷ []
split_crlf (String.◌∷◌ c (String.◌∷◌ d s)) =
    let ended = split_crlf s in
    let longer = split_crlf (String.◌∷◌ d s) in
    if eqb (code c) b'\r' && eqb (code d) b'\n' then "" ∷ ended else onto_first c longer

module _ (trim : String → String) where
  -- One part of a disposition; a later name or filename replaces an earlier one.
  abbrev pub read_parameter : String → Option String × Option String → Option String × Option String
  read_parameter part (name, filename) = elim (strip_prefix "name=" part) [
    | some val ↦ (some (unquoted val), filename)
    | none ↦ elim (strip_prefix "filename=" part) [
      | some val ↦ (name, some (unquoted val))
      | none ↦ (name, filename)
    ]
  ]

  unfoldable pub read_parameters :
      List String → Option String × Option String → Option String × Option String
  read_parameters [] found = found
  read_parameters (part ∷ parts) found = read_parameters parts (read_parameter (trim part) found)

  unfoldable pub parse_content_disposition : String → Option String × Option String
  unfolding read_parameters
  parse_content_disposition value = read_parameters (split b';' value) (none, none)

  unfoldable pub boundary_from : List String → Option String
  boundary_from [] = none
  boundary_from (part ∷ parts) =
      let later = boundary_from parts in
      elim (strip_prefix "boundary=" (trim part)) [ some val ↦ some (unquoted val) | none ↦ later ]

  unfoldable pub extract_boundary : String → Option String
  unfolding boundary_from
  extract_boundary content_type = boundary_from (split b';' content_type)

  module _ (to_lowercase : String → String) (from_utf8_lossy : List ℕ → String) where
    unfoldable pub headers_from : List String → Map String String → Map String String
    headers_from [] headers = headers
    headers_from (line ∷ lines) headers = elim (split_once b':' line) [
      | none ↦ headers_from lines headers
      | some (name, value) ↦
          headers_from lines (Map.insert (to_lowercase (trim name)) (trim value) headers)
    ]

    unfoldable pub parse_part_headers : List ℕ → Map String String
    unfolding headers_from
    parse_part_headers bytes = headers_from (split_crlf (from_utf8_lossy bytes)) []

    -- One trailing CRLF is left out of a file.
    abbrev pub without_crlf : List ℕ → List ℕ
    without_crlf s =
        let kept = take (length s - 2) s in
        if leb 2 (length s) && starts_with_bytes (drop (length s - 2) s) crlf then kept else s

    -- `trim_end_matches("\r\n")` leaves out all of them from a text.
    module _ (trim_end_crlf : String → String) where
      -- A part with a disposition that gives a name: a file if it gives a filename too.
      abbrev pub add_named :
          Option String × Option String → Map String String → List ℕ → FormData → FormData
      add_named (none, filename) headers content d = d
      add_named (some name, some filename) headers content d =
          add_file name
            (new_file name filename
              (or_default "application/octet-stream" (Map.lookup "content-type" headers))
              (without_crlf content))
            d
      add_named (some name, none) headers content d =
          add_field name (trim_end_crlf (from_utf8_lossy content)) d

      -- One round of the loop of `parse_multipart`.
      unfoldable pub add_part : List ℕ → FormData → FormData
      unfolding parse_part_headers parse_content_disposition
      add_part part d = elim (find_double_crlf part) [
        | none ↦ d
        | some sep_pos ↦
            let headers = parse_part_headers (take sep_pos part) in
            elim (Map.lookup "content-disposition" headers) [
              | none ↦ d
              | some disposition ↦
                  add_named (parse_content_disposition disposition) headers
                    (drop (sep_pos + 4) part) d
            ]
      ]

      unfoldable pub add_parts : List (List ℕ) → FormData → FormData
      unfolding add_part
      add_parts [] d = d
      add_parts (part ∷ parts) d = add_parts parts (if is_empty part then d else add_part part d)

      -- `boundary` are the bytes of the boundary of the content type.
      unfoldable pub parse_multipart : List ℕ → List ℕ → FormData
      unfolding add_parts split_multipart
      parse_multipart body boundary = add_parts (split_multipart body (dashes ++ boundary)) new
