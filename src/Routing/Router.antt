-- ===== src/Routing/Router.antt =====
-- src/routing/router.rs, `Router`: the list of routes and one table of the `matchit` crate for each
-- method. The crate is a parameter, `Matchit`; its laws are what its documentation says of a path
-- without a parameter: it is found once inserted, and no later insertion hides it. `to_uppercase` is a
-- parameter.
mod Serving
pub mod Tests
use Prim.Native.Char.{Char, code}
use Prim.Native.String
use text.Mathlib.Text.{starts_with}
use hypern.Prelude.Map.{Map}
use hypern.Prelude.Text.{IsWithout, trim_end_matches, trim_start_matches}
use hypern.Routing.Route.{Route, is_valid, matches}
use hypern.Prelude.{
  ℕ, ◌*◌, ◌/◌, String, ◌≡◌, Bool, true, false, not, ◌&&◌, ◌||◌, Option, none, some, List, [], ◌∷◌,
  ◌++◌, eqb, if◌then◌else◌, ◌==◌, or_default, length, keep, string_eq, nat_eq,
}

-- Without `:`, `*`, `{` and `}`.
abbrev pub IsStatic : String → Type 0
IsStatic path = IsWithout 58 path × IsWithout 42 path × IsWithout 123 path × IsWithout 125 path

pub record Matchit : Type 1 where
  pub Table : Type 0
  pub empty : Table
  pub insert_route : String → Route → Table → Option Table
  pub at : String → Table → Option (Route × Map String String)
  pub at-insert_route :
      (path : String) (route : Route) (t t' : Table)
      → IsStatic path
      → insert_route path route t ≡ some t'
      → at path t' ≡ some (route, [])
  pub at-insert_route_other :
      (path other : String) (route found : Route) (t t' : Table)
      → IsStatic path
      → at path t ≡ some (found, [])
      → insert_route other route t ≡ some t'
      → at path t' ≡ some (found, [])

-- Where `convert_to_matchit_path` stands: in its loop, or in the inner one of `:` or of `*`.
pub data Mode : Type 0 where
  plain param wildcard : Mode

abbrev pub is_delimiter : Char → Bool
is_delimiter c = eqb (code c) 47 || eqb (code c) 45 || eqb (code c) 46

-- An inner loop leaves its delimiter to the outer one, which only copies it.
unfoldable pub convert_from : Mode → String → String
convert_from plain String.[] = ""
convert_from param String.[] = "}"
convert_from wildcard String.[] = "}"
convert_from plain (String.◌∷◌ c s) =
    let as_plain = convert_from plain s in
    let as_param = convert_from param s in
    let as_wildcard = convert_from wildcard s in
    if eqb (code c) 58
    then String.◌++◌ "{" as_param
    else if eqb (code c) 42
    then String.◌++◌ "{*" as_wildcard
    else String.◌∷◌ c as_plain
convert_from param (String.◌∷◌ c s) =
    let as_plain = convert_from plain s in
    let as_param = convert_from param s in
    if is_delimiter c then String.◌++◌ "}" (String.◌∷◌ c as_plain) else String.◌∷◌ c as_param
convert_from wildcard (String.◌∷◌ c s) =
    let as_plain = convert_from plain s in
    let as_wildcard = convert_from wildcard s in
    if eqb (code c) 47 then String.◌++◌ "}" (String.◌∷◌ c as_plain) else String.◌∷◌ c as_wildcard

abbrev pub convert_to_matchit_path : String → String
convert_to_matchit_path path = convert_from plain path

-- The seven methods that have a table.
pub data Slot : Type 0 where
  get post put delete patch head options : Slot

-- `match method { "GET" => …, … }`
unfoldable pub slot_of : String → Option Slot
slot_of method =
    if method == "GET"
    then some get
    else if method == "POST"
    then some post
    else if method == "PUT"
    then some put
    else if method == "DELETE"
    then some delete
    else if method == "PATCH"
    then some patch
    else if method == "HEAD"
    then some head
    else if method == "OPTIONS"
    then some options
    else none

module _ (mi : Matchit) where
  pub record Router : Type 0 where
    pub path : String
    pub routes : List Route
    pub get_router : mi.Table
    pub post_router : mi.Table
    pub put_router : mi.Table
    pub delete_router : mi.Table
    pub patch_router : mi.Table
    pub head_router : mi.Table
    pub options_router : mi.Table

  -- Router::new
  abbrev pub new : String → Router
  new path = record {
    path = path;
    routes = [];
    get_router = mi.empty;
    post_router = mi.empty;
    put_router = mi.empty;
    delete_router = mi.empty;
    patch_router = mi.empty;
    head_router = mi.empty;
    options_router = mi.empty;
  }

  abbrev pub table_of : Slot → Router → mi.Table
  table_of get r = r.get_router
  table_of post r = r.post_router
  table_of put r = r.put_router
  table_of delete r = r.delete_router
  table_of patch r = r.patch_router
  table_of head r = r.head_router
  table_of options r = r.options_router

  abbrev pub set_table : Slot → mi.Table → Router → Router
  set_table get t r = record r { get_router = t }
  set_table post t r = record r { post_router = t }
  set_table put t r = record r { put_router = t }
  set_table delete t r = record r { delete_router = t }
  set_table patch t r = record r { patch_router = t }
  set_table head t r = record r { head_router = t }
  set_table options t r = record r { options_router = t }

  unfoldable pub get_full_path : String → Router → String
  get_full_path route_path r =
      let base = trim_end_matches 47 r.path in
      let route = trim_start_matches 47 route_path in
      if base == ""
      then String.◌++◌ "/" route
      else if route == ""
      then base
      else String.◌++◌ base (String.◌++◌ "/" route)

  -- MatchitRouter::insert
  abbrev pub insert_converted : String → Route → mi.Table → Option mi.Table
  insert_converted path route t = mi.insert_route (convert_to_matchit_path path) route t

  module _ (to_uppercase : String → String) where
    -- None where the source raises; the router is then as before.
    unfoldable pub add_route : Route → Router → Option Router
    add_route route r =
        if not (is_valid to_uppercase route)
        then none
        else elim (slot_of (to_uppercase route.method)) [
          | none ↦ none
          | some slot ↦
              elim (insert_converted (get_full_path route.path r) route (table_of slot r)) [
                | none ↦ none
                | some t ↦ some (record (set_table slot t r) { routes = r.routes ++ route ∷ [] })
              ]
        ]

    -- An error is dropped.
    unfoldable pub extend_route : List Route → Router → Router
    extend_route [] r = r
    extend_route (route ∷ routes) r = extend_route routes (or_default r (add_route route r))

    -- The first route of the path and the method, by `position` and `remove`.
    unfoldable pub remove_first : String → String → List Route → List Route × Bool
    remove_first path method [] = ([], false)
    remove_first path method (x ∷ xs) =
        let (rest, found) = remove_first path method xs in
        if x.path == path && to_uppercase x.method == to_uppercase method
        then (xs, true)
        else (x ∷ rest, found)

    unfoldable pub remove_route : String → String → Router → Router × Bool
    remove_route path method r =
        let (routes, found) = remove_first path method r.routes in
        (record r { routes = routes }, found)

    -- The first match of `iter().find`.
    unfoldable pub find_first : (Route → Bool) → List Route → Option Route
    find_first p [] = none
    find_first p (x ∷ xs) = let rest = find_first p xs in if p x then some x else rest

    unfoldable pub get_route : String → String → Router → Option Route
    get_route path method r = find_first (λ x. matches to_uppercase x path method) r.routes

    abbrev get_routes_by_path : String → Router → List Route
    get_routes_by_path path r = keep (λ x. x.path == path) r.routes

    -- The method as it stands, and else in capitals.
    abbrev pub slot_for : String → Option Slot
    slot_for method = elim (slot_of method) [
      | some slot ↦ some slot
      | none ↦ slot_of (to_uppercase method)
    ]

    unfoldable pub find_matching_route :
        String → String → Router → Option (Route × Map String String)
    find_matching_route path method r = elim (slot_for method) [
      | some slot ↦ mi.at path (table_of slot r)
      | none ↦ none
    ]

  abbrev routes_count : Router → ℕ
  routes_count r = length r.routes
