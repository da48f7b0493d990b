-- ===== src/Routing/Router/Serving.antt =====
-- Which routes the router serves, as routes are added and removed.

use hypern.Prelude.Text.{IsWithout}
use hypern.Routing.Router.{
  slot_for, Map, remove_first, remove_route, convert_to_matchit_path, get_full_path,
  insert_converted, IsStatic, is_valid, slot_of, Route, extend_route, add_route,
  find_matching_route, Matchit, plain, convert_from, Slot, get, post, put, delete, patch, head,
  options, Router, table_of, set_table,
}
use hypern.Prelude.{
  ◌+◌, String, ◌≡◌, refl, sym, ap, ◌∙◌, subst, ◌⊎◌, inl, inr, ◌&&◌, Option, none, some, List, [],
  ◌∷◌, ◌++◌, arith, if◌then◌else◌, Bool-cases, Option-cases, ◌==◌, or_default, length, string_eq,
  nat_eq,
}

convert_from-static :
    (path : String) → IsWithout 58 path → IsWithout 42 path → convert_from plain path ≡ path
unfolding convert_from
convert_from-static String.[] h k = refl
convert_from-static (String.◌∷◌ c s) (h, hs) (k, ks) = rw (h, k, convert_from-static s hs ks) refl

module _ (mi : Matchit) where
  -- What holds of every table still holds after one is exchanged.
  table_of-set_table :
      (P : mi.Table → Type 0) (slot other : Slot) (t : mi.Table) (r : Router mi) (rs : List Route)
      → P (table_of mi slot r)
      → (P (table_of mi other r) → P t)
      → P (table_of mi slot (record (set_table mi other t r) { routes = rs }))
  table_of-set_table P get get t r rs h k = k h
  table_of-set_table P post post t r rs h k = k h
  table_of-set_table P put put t r rs h k = k h
  table_of-set_table P delete delete t r rs h k = k h
  table_of-set_table P patch patch t r rs h k = k h
  table_of-set_table P head head t r rs h k = k h
  table_of-set_table P options options t r rs h k = k h
  table_of-set_table P slot other t r rs h k = h

  set_table_own :
      (slot : Slot) (t : mi.Table) (r : Router mi) (rs : List Route)
      → table_of mi slot (record (set_table mi slot t r) { routes = rs }) ≡ t
  set_table_own get t r rs = refl
  set_table_own post t r rs = refl
  set_table_own put t r rs = refl
  set_table_own delete t r rs = refl
  set_table_own patch t r rs = refl
  set_table_own head t r rs = refl
  set_table_own options t r rs = refl

  module _ (to_uppercase : String → String) where
    -- What an addition did.
    IsAdded : Route → Router mi → Router mi → Type 0
    IsAdded route r r' =
        (slot : Slot) × ((t : mi.Table) × ((slot_of (to_uppercase route.method) ≡ some slot)
            × ((insert_converted mi (get_full_path mi route.path r) route (table_of mi slot r)
                  ≡ some t)
                × (r' ≡ record (set_table mi slot t r) { routes = r.routes ++ route ∷ [] }))))

    add_route-cases :
        (route : Route) (r : Router mi)
        → (add_route mi to_uppercase route r ≡ none)
          ⊎ ((r' : Router mi) × ((add_route mi to_uppercase route r ≡ some r')
                × IsAdded route r r'))
    unfolding add_route IsAdded
    add_route-cases route r = elim (Bool-cases (is_valid to_uppercase route)) [
      | inr v ↦ inl (rw (v, add_route) refl)
      | inl v ↦ elim (Option-cases (slot_of (to_uppercase route.method))) [
        | inl s ↦ inl (rw (v, s, add_route) refl)
        | inr (slot, s) ↦
            elim (Option-cases
              (insert_converted mi (get_full_path mi route.path r) route (table_of mi slot r))) [
                | inl i ↦ inl (rw (v, s, i, add_route) refl)
                | inr (t, i) ↦ inr (
                  record (set_table mi slot t r) { routes = r.routes ++ route ∷ [] },
                  (rw (v, s, i, add_route) refl, (slot, (t, (s, (i, refl))))),
                )
              ]
      ]
    ]

    -- The slot's table finds the route at the path.
    IsServed : Slot → String → Route → Router mi → Type 0
    IsServed slot path route r = mi.at path (table_of mi slot r) ≡ some (route, [])

    IsAdded-IsServed :
        (slot : Slot) (path : String) (route other : Route) (r r' : Router mi)
        → IsStatic path
        → IsAdded other r r'
        → IsServed slot path route r
        → IsServed slot path route r'
    unfolding IsAdded IsServed
    IsAdded-IsServed slot path route other r r' st (s, (t, (_, (i, q)))) h =
        subst (λ x. mi.at path (table_of mi slot x) ≡ some (route, [])) (sym q)
          (table_of-set_table (λ u. mi.at path u ≡ some (route, [])) slot s t r
            (r.routes ++ other ∷ []) h
            (λ k.
              mi.at-insert_route_other path
                (convert_to_matchit_path (get_full_path mi other.path r)) other route _ t st k i))

    extend_route-IsServed :
        (slot : Slot) (path : String) (route : Route) (others : List Route) (r : Router mi)
        → IsStatic path
        → IsServed slot path route r
        → IsServed slot path route (extend_route mi to_uppercase others r)
    unfolding extend_route
    extend_route-IsServed slot path route [] r st h = h
    extend_route-IsServed slot path route (o ∷ os) r st h = elim (add_route-cases o r) [
      | inl e ↦
          extend_route-IsServed slot path route os (or_default r (add_route mi to_uppercase o r)) st
            (rw e h)
      | inr (r', (e, a)) ↦
          extend_route-IsServed slot path route os (or_default r (add_route mi to_uppercase o r)) st
            (rw e (IsAdded-IsServed slot path route o r r' st a h))
    ]

    -- A route without parameters that was added stays served: whatever routes are added after it,
    -- also ones whose addition fails, a request of its method, in capitals, to its full path finds
    -- the route, with no parameters.
    pub find_matching_route-extend_route :
        (route : Route) (others : List Route) (r r' : Router mi)
        → IsStatic (get_full_path mi route.path r)
        → add_route mi to_uppercase route r ≡ some r'
        → find_matching_route mi to_uppercase
            (get_full_path mi route.path r)
            (to_uppercase route.method)
            (extend_route mi to_uppercase others r')
          ≡ some (route, [])
    unfolding find_matching_route IsAdded IsServed
    find_matching_route-extend_route route others r r' st h = elim (add_route-cases route r) [
      | inl e ↦ absurd (ground (arith, e, h))
      | inr (r'', (e, (slot, (t, (s, (i, q)))))) ↦
          let path = get_full_path mi route.path r in
          let same : r'' ≡ r' = ground (arith, e, h) in
          let served : mi.at path t ≡ some (route, []) =
            mi.at-insert_route path route (table_of mi slot r) t st (
              ap (λ p. mi.insert_route p route (table_of mi slot r))
                (sym (convert_from-static path st.0 st.1))
              ∙ i) in
          let now_served : IsServed slot path route r' =
            ap (λ x. mi.at path (table_of mi slot x)) (sym same ∙ q)
            ∙ ap (mi.at path) (set_table_own slot t r (r.routes ++ route ∷ []))
            ∙ served in
          rw (s, find_matching_route)
            (extend_route-IsServed slot path route others r' st now_served)
    ]

    length-remove_first :
        (path method : String) (xs : List Route)
        → length (remove_first mi to_uppercase path method xs).0
            + (if (remove_first mi to_uppercase path method xs).1 then 1 else 0)
          ≡ length xs
    unfolding remove_first
    length-remove_first path method [] = omega arith
    length-remove_first path method (x ∷ xs) =
        elim (Bool-cases (x.path == path && to_uppercase x.method == to_uppercase method)) [
          | inl e ↦ rw (e, remove_first) (omega arith)
          | inr e ↦ rw (e, remove_first) (omega (arith, length-remove_first path method xs))
        ]

    table_of-routes :
        (slot : Slot) (rs : List Route) (r : Router mi)
        → table_of mi slot (record r { routes = rs }) ≡ table_of mi slot r
    table_of-routes get rs r = refl
    table_of-routes post rs r = refl
    table_of-routes put rs r = refl
    table_of-routes delete rs r = refl
    table_of-routes patch rs r = refl
    table_of-routes head rs r = refl
    table_of-routes options rs r = refl

    -- `remove_route` takes one route from the list if it answers true and none if it answers false,
    -- but what requests find is as before: a removed route is still served.
    pub find_matching_route-remove_route :
        (path method asked asked_method : String) (r : Router mi)
        → (length (remove_route mi to_uppercase path method r).0.routes
              + (if (remove_route mi to_uppercase path method r).1 then 1 else 0)
            ≡ length r.routes)
          × (find_matching_route mi to_uppercase asked asked_method
                (remove_route mi to_uppercase path method r).0
              ≡ find_matching_route mi to_uppercase asked asked_method r)
    unfolding remove_route find_matching_route
    find_matching_route-remove_route path method asked asked_method r =
        (length-remove_first path method r.routes, found (slot_for mi to_uppercase asked_method))
      where
        left : List Route
        left = (remove_first mi to_uppercase path method r.routes).0

        at : Slot → Router mi → Option (Route × Map String String)
        at slot r = mi.at asked (table_of mi slot r)

        found :
            (o : Option Slot)
            → elim o [ some slot ↦ at slot (record r { routes = left }) | none ↦ none ]
              ≡ elim o [ some slot ↦ at slot r | none ↦ none ]
        found none = refl
        found (some slot) = ap (mi.at asked) (table_of-routes slot left r)
