-- ===== src/Http/Request/Cookies.antt =====
-- The two ways to read a cookie.
use hypern.Http.Request.{
  pick, grown, Request, header, cookie, cookie_from, cookie_pair, cookies, cookies_from,
}
use hypern.Prelude.Map
use hypern.Prelude.Text.{split}
use hypern.Prelude.{
  ℕ, ◌+◌, ◌≤◌, String, ◌≡◌, refl, ap, ◌∙◌, inl, inr, Option, none, some, List, [], ◌∷◌, arith,
  if◌then◌else◌, Bool-cases, ◌==◌, string_eq, nat_eq,
}

module _ (to_lowercase trim : String → String) where
  abbrev pub names : Option (String × String) → String → ℕ
  names none name = 0
  names (some (n, v)) name = if n == name then 1 else 0

  -- How many of the cookies have this name.
  abbrev pub count_named : String → List String → ℕ
  count_named name [] = 0
  count_named name (c ∷ cs) = names (cookie_pair to_lowercase trim c) name + count_named name cs

  abbrev or_else : Option String → Option String → Option String
  or_else (some v) o = some v
  or_else none o = o

  names_none :
      (p : Option (String × String)) (name : String) (m : Map.Map String String)
      → names p name ≡ 0
      → (Map.lookup name (grown p m) ≡ Map.lookup name m)
        × ((o : Option String) → pick p name o ≡ o)
  names_none none name m h = (refl, λ o. refl)
  names_none (some (n, v)) name m h = elim (Bool-cases (n == name)) [
    | inl e ↦ ground (arith, h, e)
    | inr e ↦ (Map.lookup-insert n name v m ∙ rw e, λ o. rw e)
  ]

  lookup-cookies_from_absent :
      (name : String) (cs : List String) (m : Map.Map String String)
      → count_named name cs ≡ 0
      → (Map.lookup name (cookies_from to_lowercase trim cs m) ≡ Map.lookup name m)
        × (cookie_from to_lowercase trim name cs ≡ none)
  unfolding cookies_from cookie_from
  lookup-cookies_from_absent name [] m h = (refl, refl)
  lookup-cookies_from_absent name (c ∷ cs) m h =
      let p = cookie_pair to_lowercase trim c in
      let (same, skipped) = names_none p name m (omega (arith, h)) in
      let (later, absent) = lookup-cookies_from_absent name cs (grown p m) (omega (arith, h)) in
      (later ∙ same, skipped _ ∙ absent)

  lookup-cookies_from-grown :
      (name : String) (cs : List String) (m : Map.Map String String) (p : Option (String × String))
      → names p name + count_named name cs ≤ 1
      → ((t : Map.Map String String)
          → count_named name cs ≤ 1
          → Map.lookup name (cookies_from to_lowercase trim cs t)
            ≡ or_else (cookie_from to_lowercase trim name cs) (Map.lookup name t))
      → Map.lookup name (cookies_from to_lowercase trim cs (grown p m))
        ≡ or_else (pick p name (cookie_from to_lowercase trim name cs)) (Map.lookup name m)
  lookup-cookies_from-grown name cs m none h further =
      let few : count_named name cs ≤ 1 = omega (arith, h) in further m few
  lookup-cookies_from-grown name cs m (some (n, v)) h further = elim (Bool-cases (n == name)) [
    | inl e ↦
        let last : count_named name cs ≡ 0 = omega (arith, rw e at h) in
        let (same, _) = lookup-cookies_from_absent name cs (Map.insert n v m) last in
        same ∙ Map.lookup-insert n name v m ∙ rw e
    | inr e ↦
        let few : count_named name cs ≤ 1 = omega (arith, h) in
        let kept : Map.lookup name (Map.insert n v m) ≡ Map.lookup name m =
          Map.lookup-insert n name v m ∙ rw e in
        further (Map.insert n v m) few
        ∙ ap (or_else (cookie_from to_lowercase trim name cs)) kept
        ∙ rw e
  ]

  lookup-cookies_from :
      (name : String) (cs : List String) (m : Map.Map String String)
      → count_named name cs ≤ 1
      → Map.lookup name (cookies_from to_lowercase trim cs m)
        ≡ or_else (cookie_from to_lowercase trim name cs) (Map.lookup name m)
  unfolding cookies_from cookie_from
  lookup-cookies_from name [] m h = refl
  lookup-cookies_from name (c ∷ cs) m h =
      lookup-cookies_from-grown name cs m (cookie_pair to_lowercase trim c) h
        (λ t few. lookup-cookies_from name cs t few)

  or_else-none : (o : Option String) → or_else o none ≡ o
  or_else-none none = refl
  or_else-none (some v) = refl

  -- The map of the cookies and the search for one agree on every name that the header has at most
  -- once.
  pub lookup-cookies :
      (name : String) (r : Request) (s : String)
      → header to_lowercase trim "cookie" r ≡ some s
      → count_named name (split b';' s) ≤ 1
      → Map.lookup name (cookies to_lowercase trim r) ≡ cookie to_lowercase trim name r
  unfolding cookies cookie Map.lookup
  lookup-cookies name r s e h =
      rw (e, cookies, cookie)
        (lookup-cookies_from name (split b';' s) [] h
          ∙ or_else-none (cookie_from to_lowercase trim name (split b';' s)))
