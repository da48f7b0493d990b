-- ===== src/Routing/Router/Tests.antt =====
-- Tests of routes and of the router, and the theorems at concrete inputs. The tables are maps.
use hypern.Prelude.Map
use hypern.Prelude.Map.{Map}
use hypern.Prelude.Text.{split, trim_end_matches, trim_start_matches}
use hypern.Routing.Route.{Route, is_valid, parts_match, matches, get_path_params, normalized_path}
use hypern.Routing.Router.{
  Matchit, convert_from, convert_to_matchit_path, slot_of, Router, new, get_full_path, add_route,
  extend_route, remove_first, remove_route, find_first, get_route, find_matching_route,
}
use hypern.Routing.Router.Serving.{
  find_matching_route-extend_route, find_matching_route-remove_route,
}
use hypern.Prelude.{
  ◌+◌, String, ◌≡◌, refl, sym, ap, ◌∙◌, inl, inr, Option, none, some, [], ◌∷◌, arith, Bool-cases,
  Option-cases, ◌==◌, or_default, length, string_eq, nat_eq,
}

pub router : Unit {0}
unfolding is_valid parts_match matches get_path_params normalized_path convert_from slot_of
    get_full_path add_route extend_route remove_first remove_route find_first get_route
    find_matching_route Map.lookup Map.insert trim_end_matches trim_start_matches split
router = tt

abbrev insert_new : String → Route → Map String Route → Option (Map String Route)
insert_new path route t = elim (Map.lookup path t) [
  | none ↦ some (Map.insert path route t)
  | some old ↦ none
]

abbrev found_route : Option Route → Option (Route × Map String String)
found_route none = none
found_route (some route) = some (route, [])

abbrev find : String → Map String Route → Option (Route × Map String String)
find path t = found_route (Map.lookup path t)

insert_new_lem :
    (path : String) (route : Route) (t t' : Map String Route)
    → insert_new path route t ≡ some t'
    → (Map.lookup path t ≡ none) × (t' ≡ Map.insert path route t)
insert_new_lem path route t t' h = elim (Option-cases (Map.lookup path t)) [
  | inl e ↦ (e, ground (arith, h, e))
  | inr (old, e) ↦ absurd (ground (arith, h, e))
]

pub find-insert_new :
    (path : String) (route : Route) (t t' : Map String Route)
    → insert_new path route t ≡ some t'
    → find path t' ≡ some (route, [])
find-insert_new path route t t' h =
    let (absent, grown) = insert_new_lem path route t t' h in
    let found : Map.lookup path t' ≡ some route =
      ap (Map.lookup path) grown
      ∙ Map.lookup-insert path path route t
      ∙ rw ((string_eq.beq_iff path path).1 refl) refl in
    ap found_route found

pub find-insert_new_other :
    (path other : String) (route found : Route) (t t' : Map String Route)
    → find path t ≡ some (found, [])
    → insert_new other route t ≡ some t'
    → find path t' ≡ some (found, [])
find-insert_new_other path other route found t t' k h =
    let (absent, grown) = insert_new_lem other route t t' h in
    elim (Bool-cases (other == path)) [
      | inl e ↦
          let gone : find path t ≡ none =
            ap (λ p. find p t) (sym ((string_eq.beq_iff other path).0 e)) ∙ ap found_route absent in
          absurd (ground (arith, gone, k))
      | inr e ↦
          let kept : Map.lookup path t' ≡ Map.lookup path t =
            ap (Map.lookup path) grown ∙ Map.lookup-insert other path route t ∙ rw e refl in
          ap found_route kept ∙ k
    ]

-- Exact paths only.
abbrev pub exact : Matchit
exact = record {
  Table = Map String Route;
  empty = [];
  insert_route = insert_new;
  at = find;
  at-insert_route = λ path route t t' st h. find-insert_new path route t t' h;
  at-insert_route_other =
      λ path other route found t t' st k h. find-insert_new_other path other route found t t' k h;
}

abbrev pub same_text : String → String
same_text s = s

abbrev pub route : String → Route
route path = record { path = path; function = "f"; method = "GET"; doc = none }

-- A router with one route.
abbrev pub one_route : Router exact
one_route =
    or_default (new exact "/api") (add_route exact same_text (route "/a") (new exact "/api"))

convert_test :
    (convert_to_matchit_path "/u/:id.json/*rest" ≡ "/u/{id}.json/{*rest}")
    × (convert_to_matchit_path "/u/:id" ≡ "/u/{id}")
unfolding router
convert_test = (refl, refl)

full_path_test :
    (get_full_path exact "/a" (new exact "/api/") ≡ "/api/a")
    × (get_full_path exact "/" (new exact "/api") ≡ "/api")
    × (get_full_path exact "a" (new exact "/") ≡ "/a")
unfolding router
full_path_test = (refl, refl, refl)

-- The list is asked with a route's own path, the tables with the router's in front.
own_path_test :
    (get_route exact same_text "/api/a" "GET" one_route ≡ none)
    × (find_matching_route exact same_text "/api/a" "GET" one_route ≡ some (route "/a", []))
unfolding router
own_path_test = (refl, refl)

find_matching_route-extend_route_example :
    find_matching_route exact same_text "/api/a" "GET"
      (extend_route exact same_text (route "/a" ∷ route "b" ∷ route "/c" ∷ []) one_route)
    ≡ some (route "/a", [])
unfolding router
find_matching_route-extend_route_example =
    find_matching_route-extend_route exact same_text (route "/a")
      (route "/a" ∷ route "b" ∷ route "/c" ∷ []) (new exact "/api") one_route
      (
        (refl, (refl, (refl, (refl, (refl, (refl, tt)))))),
        (refl, (refl, (refl, (refl, (refl, (refl, tt)))))),
        (refl, (refl, (refl, (refl, (refl, (refl, tt)))))),
        (refl, (refl, (refl, (refl, (refl, (refl, tt)))))),
      )
      refl

find_matching_route-remove_route_test :
    (length (remove_route exact same_text "/a" "GET" one_route).0.routes + 1 ≡ 1)
    × (find_matching_route exact same_text "/api/a" "GET"
          (remove_route exact same_text "/a" "GET" one_route).0
        ≡ find_matching_route exact same_text "/api/a" "GET" one_route)
unfolding router
find_matching_route-remove_route_test =
    find_matching_route-remove_route exact same_text "/a" "GET" "/api/a" "GET" one_route
