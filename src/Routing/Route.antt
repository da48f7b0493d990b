-- ===== src/Routing/Route.antt =====
-- src/routing/route.rs, `Route`: the handler is named by a text; `to_uppercase` is a parameter.
mod Matching
mod Tests
use Prim.Native.Char.{code}
use Prim.Native.String
use text.Mathlib.Text.{starts_with}
use hypern.Prelude.Text.{split, trim_end_matches, push}
use hypern.Prelude.{
  ℕ, ◌/◌, String, Bool, true, false, not, ◌&&◌, Option, List, [], ◌∷◌, map, eqb, if◌then◌else◌,
  ◌==◌, length, keep, elem, string_eq, nat_eq,
}

pub record Route : Type 0 where
  pub path : String
  pub function : String
  pub method : String
  pub doc : Option String

abbrev update_path : String → Route → Route
update_path new_path r = record r { path = new_path }

-- `param[1..]`
abbrev without_first : String → String
without_first String.[] = ""
without_first (String.◌∷◌ c s) = s

unfoldable pub get_path_params : Route → List String
get_path_params r = map without_first (keep (λ s. starts_with s ":") (split 47 r.path))

unfoldable pub normalized_path : Route → String
normalized_path r =
    let path = trim_end_matches 47 r.path in
    if starts_with path "/" then path else String.◌++◌ "/" path

-- The segments that are not empty.
abbrev pub parts : String → List String
parts path = keep (λ s. not (s == "")) (split 47 path)

-- The loop over the zipped segments.
unfoldable pub parts_match : List String → List String → Bool
parts_match [] ys = true
parts_match (x ∷ xs) [] = true
parts_match (x ∷ xs) (y ∷ ys) =
    let rest = parts_match xs ys in if not (starts_with x ":") && not (x == y) then false else rest

module _ (to_uppercase : String → String) where
  abbrev update_method : String → Route → Route
  update_method new_method r = record r { method = to_uppercase new_method }

  unfoldable pub is_valid : Route → Bool
  is_valid r =
      if not (starts_with r.path "/")
      then false
      else elem (to_uppercase r.method)
          ("GET" ∷ "POST" ∷ "PUT" ∷ "DELETE" ∷ "PATCH" ∷ "HEAD" ∷ "OPTIONS" ∷ [])

  abbrev get_method_priority : Route → ℕ
  get_method_priority r =
      let method = to_uppercase r.method in
      if method == "GET"
      then 1
      else if method == "POST"
      then 2
      else if method == "PUT"
      then 3
      else if method == "PATCH"
      then 4
      else if method == "DELETE"
      then 5
      else if method == "HEAD"
      then 6
      else if method == "OPTIONS"
      then 7
      else 99

  unfoldable pub matches : Route → String → String → Bool
  matches r path method =
      if not (to_uppercase r.method == to_uppercase method)
      then false
      else if not (eqb (length (parts r.path)) (length (parts path)))
      then false
      else parts_match (parts r.path) (parts path)
