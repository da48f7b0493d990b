-- ===== src/Routing/Route/Tests.antt =====
-- Tests of a route, and the theorem at a concrete input.
use hypern.Prelude.Text.{split, trim_end_matches}
use hypern.Routing.Route.{Route, get_path_params, normalized_path, parts_match, is_valid, matches}
use hypern.Routing.Route.Matching.{Fits, matches_iff}
use hypern.Prelude.{String, ◌≡◌, refl, ◌↔◌, true, none, [], ◌∷◌}

routes : Unit {0}
unfolding get_path_params normalized_path parts_match is_valid matches split trim_end_matches
routes = tt

abbrev same_text : String → String
same_text s = s

abbrev user : Route
user = record { path = "/u/:id/"; function = "f"; method = "GET"; doc = none }

params_test : (get_path_params user ≡ "id" ∷ []) × (normalized_path user ≡ "/u/:id")
unfolding routes
params_test = (refl, refl)

matches_iff_example :
    (matches same_text user "//u/7" "GET" ≡ true)
    ↔ ((user.method ≡ "GET") × Fits ("u" ∷ ":id" ∷ []) ("u" ∷ "7" ∷ []))
unfolding routes
matches_iff_example = matches_iff same_text user "//u/7" "GET"
