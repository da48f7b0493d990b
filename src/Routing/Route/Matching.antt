-- ===== src/Routing/Route/Matching.antt =====
-- `Route::matches` against a definition of matching by rules.
use text.Mathlib.Text.{starts_with}
use hypern.Routing.Route.{Route, parts, parts_match, matches}
use hypern.Prelude.{
  suc, String, ◌≡◌, refl, ap, subst, ◌↔◌, inl, inr, true, List, [], ◌∷◌, arith, eqb_iff, Bool-cases,
  ◌==◌, length, string_eq, nat_eq,
}

-- Segment by segment, a parameter fits everything and another segment fits itself.
pub data Fits : List String → List String → Type 0 where
  fits_end : Fits [] []
  fits_param :
      {x y : String} {xs ys : List String}
      → starts_with x ":" ≡ true
      → Fits xs ys
      → Fits (x ∷ xs) (y ∷ ys)
  fits_same : {x : String} {xs ys : List String} → Fits xs ys → Fits (x ∷ xs) (x ∷ ys)

Fits-parts_match :
    {xs ys : List String} → Fits xs ys → (length xs ≡ length ys) × (parts_match xs ys ≡ true)
unfolding parts_match
Fits-parts_match fits_end = (refl, refl)
Fits-parts_match (fits_param {x} {y} {xs} {ys} p f) =
    let h = Fits-parts_match f in (ap suc h.0, rw (p, h.1) refl)
Fits-parts_match (fits_same {x} {xs} {ys} f) =
    let h = Fits-parts_match f in
    (
      ap suc h.0,
      ground (arith, h.1, (string_eq.beq_iff x x).1 refl, Bool-cases (starts_with x ":")),
    )

parts_match-Fits :
    (xs ys : List String) → length xs ≡ length ys → parts_match xs ys ≡ true → Fits xs ys
unfolding parts_match
parts_match-Fits [] [] n h = fits_end
parts_match-Fits [] (y ∷ ys) n h = absurd (ground (arith, n))
parts_match-Fits (x ∷ xs) [] n h = absurd (ground (arith, n))
parts_match-Fits (x ∷ xs) (y ∷ ys) n h = elim (Bool-cases (starts_with x ":")) [
  | inl p ↦ fits_param p (parts_match-Fits xs ys (omega (arith, n)) (ground (arith, h, p)))
  | inr p ↦ elim (Bool-cases (x == y)) [
    | inl q ↦
        subst (λ z. Fits (x ∷ xs) (z ∷ ys)) ((string_eq.beq_iff x y).0 q)
          (fits_same (parts_match-Fits xs ys (omega (arith, n)) (ground (arith, h, p, q))))
    | inr q ↦ absurd (ground (arith, h, p, q))
  ]
]

module _ (to_uppercase : String → String) where
  -- `Route::matches` accepts a path and a method exactly if the methods are the same in capitals and
  -- the segments that are not empty fit one by one, a parameter `:name` taking one of any text and
  -- every other segment itself alone. A segment `*name` is one of the others: this test does not
  -- match it with several segments.
  pub matches_iff :
      (r : Route) (path method : String)
      → (matches to_uppercase r path method ≡ true)
        ↔ ((to_uppercase r.method ≡ to_uppercase method) × Fits (parts r.path) (parts path))
  unfolding matches
  matches_iff r path method = (
    λ h. (
      (string_eq.beq_iff _ _).0 (ground (arith, h)),
      parts_match-Fits (parts r.path) (parts path) (ground (arith, h)) (ground (arith, h)),
    ),
    λ (m, f).
        let g = Fits-parts_match f in
        rw ((string_eq.beq_iff _ _).1 m, (eqb_iff _ _).1 g.0, g.1) refl,
  )
