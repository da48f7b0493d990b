-- ===== src/Http/Headers.antt =====
-- src/http/headers.rs, `HeaderMap`: one value for each name, under the name in lower case.
-- `to_lowercase` is Rust's, a parameter.
use hypern.Prelude.Map
use hypern.Prelude.Map.{Map}
use hypern.Prelude.{String, Option, none, some, List, [], ◌∷◌, ◌==◌, string_eq, nat_eq}

pub record HeaderMap : Type 0 where
  pub headers : Map String String

-- HeaderMap::new
abbrev pub new : HeaderMap
new = record { headers = [] }

module _ (to_lowercase : String → String) where
  unfoldable pub get : String → HeaderMap → Option String
  get key h = Map.lookup (to_lowercase key) h.headers

  unfoldable pub insert : String → String → HeaderMap → HeaderMap
  insert key value h = record { headers = Map.insert (to_lowercase key) value h.headers }

  -- A map has one entry of a key at most, and so has the answer.
  unfoldable pub get_all : String → HeaderMap → List String
  get_all key h = Map.values (Map.retain (λ k v. k == to_lowercase key) h.headers)

  -- The loop of `from_axum` over the headers of a request; a value that is not visible ASCII is none.
  unfoldable pub from_list : List (String × Option String) → HeaderMap → HeaderMap
  from_list [] h = h
  from_list ((key, none) ∷ rest) h = from_list rest h
  from_list ((key, some v) ∷ rest) h =
      from_list rest (record { headers = Map.insert (to_lowercase key) v h.headers })

  -- HeaderMap::from_axum
  abbrev pub from_axum : List (String × Option String) → HeaderMap
  from_axum hs = from_list hs new

abbrev pub keys : HeaderMap → List String
keys h = Map.keys h.headers

abbrev pub values : HeaderMap → List String
values h = Map.values h.headers

abbrev pub items : HeaderMap → List (String × String)
items h = h.headers
