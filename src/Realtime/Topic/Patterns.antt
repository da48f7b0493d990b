-- ===== src/Realtime/Topic/Patterns.antt =====
-- What a pattern matches.
use hypern.Prelude.{
  String, ◌≡◌, refl, sym, ap, subst, ◌↔◌, ◌⊎◌, inl, inr, true, List, [], ◌∷◌, ◌++◌, arith, eq_iff,
  Bool-cases, ◌==◌, string_eq, nat_eq,
}
use hypern.Prelude.Text.{split}
use hypern.Realtime.Topic.{match_parts, pattern_matches}

-- Part by part: "#" stands for a rest of at least one part, "*" for one part, any other part for
-- itself.
data Matches : List String → List String → Type 0 where
  done : Matches [] []
  rest : {p t : String} {ps ts : List String} → p ≡ "#" → Matches (p ∷ ps) (t ∷ ts)
  single :
      {p t : String} {ps ts : List String} → p ≡ "*" → Matches ps ts → Matches (p ∷ ps) (t ∷ ts)
  same : {p t : String} {ps ts : List String} → p ≡ t → Matches ps ts → Matches (p ∷ ps) (t ∷ ts)

match_parts-Matches : (ps ts : List String) → match_parts ps ts ≡ true → Matches ps ts
unfolding match_parts
match_parts-Matches [] [] h = done
match_parts-Matches [] (t ∷ ts) h = cc
match_parts-Matches (p ∷ ps) [] h = cc
match_parts-Matches (p ∷ ps) (t ∷ ts) h = elim (Bool-cases (p == "#")) [
  | inl e ↦ rest ((eq_iff p "#").0 e)
  | inr n ↦ elim (Bool-cases (p == "*")) [
    | inl e ↦ single ((eq_iff p "*").0 e) (match_parts-Matches ps ts (ground arith))
    | inr m ↦ elim (Bool-cases (p == t)) [
      | inl e ↦ same ((eq_iff p t).0 e) (match_parts-Matches ps ts (ground arith))
      | inr k ↦ absurd (ground arith)
    ]
  ]
]

Matches-match_parts : {ps ts : List String} → Matches ps ts → match_parts ps ts ≡ true
unfolding match_parts
Matches-match_parts done = refl
Matches-match_parts (rest {p = p} e) = ground (arith, eq_iff p "#")
Matches-match_parts (single {p = p} e m) = ground (arith, eq_iff p "*", Matches-match_parts m)
Matches-match_parts (same {p = p} {t = t} e m) = ground (arith, eq_iff p t, Matches-match_parts m)

Matches-refl : (ps : List String) → Matches ps ps
Matches-refl [] = done
Matches-refl (p ∷ ps) = same refl (Matches-refl ps)

-- As many parts in the topic as in the pattern, each the same where the pattern has no "*".
pub data Pointwise : List String → List String → Type 0 where
  nil : Pointwise [] []
  cons :
      {p t : String} {ps ts : List String}
      → (p ≡ "*") ⊎ (p ≡ t)
      → Pointwise ps ts
      → Pointwise (p ∷ ps) (t ∷ ts)

-- The pattern has a part "#", the parts before it agree with the first parts of the topic, and the
-- topic goes on after these.
pub record Covered (ps ts : List String) : Type 0 where
  pub front : List String
  pub unread : List String
  pub covered : List String
  pub first : String
  pub others : List String
  pub pattern_split : ps ≡ front ++ "#" ∷ unread
  pub topic_split : ts ≡ covered ++ first ∷ others
  pub agree : Pointwise front covered

-- One more part in front of both.
Covered-cons :
    {p t : String} {ps ts : List String}
    → (p ≡ "*") ⊎ (p ≡ t)
    → Covered ps ts
    → Covered (p ∷ ps) (t ∷ ts)
Covered-cons {p} {t} one c = record {
  front = p ∷ c.front;
  unread = c.unread;
  covered = t ∷ c.covered;
  first = c.first;
  others = c.others;
  pattern_split = ap (λ l. p ∷ l) c.pattern_split;
  topic_split = ap (λ l. t ∷ l) c.topic_split;
  agree = cons one c.agree;
}

both-cons :
    {p t : String} {ps ts : List String}
    → (p ≡ "*") ⊎ (p ≡ t)
    → Pointwise ps ts ⊎ Covered ps ts
    → Pointwise (p ∷ ps) (t ∷ ts) ⊎ Covered (p ∷ ps) (t ∷ ts)
both-cons one (inl w) = inl (cons one w)
both-cons one (inr c) = inr (Covered-cons one c)

Matches-cases : {ps ts : List String} → Matches ps ts → Pointwise ps ts ⊎ Covered ps ts
Matches-cases done = inl nil
Matches-cases (rest {t = t} {ps = ps} {ts = ts} e) = inr (record {
  front = [];
  unread = ps;
  covered = [];
  first = t;
  others = ts;
  pattern_split = ap (λ q. q ∷ ps) e;
  topic_split = refl;
  agree = nil;
})
Matches-cases (single e m) = both-cons (inl e) (Matches-cases m)
Matches-cases (same e m) = both-cons (inr e) (Matches-cases m)

Matches-cons :
    {p t : String} {ps ts : List String}
    → (p ≡ "*") ⊎ (p ≡ t)
    → Matches ps ts
    → Matches (p ∷ ps) (t ∷ ts)
Matches-cons (inl e) m = single e m
Matches-cons (inr e) m = same e m

Pointwise-Matches : {ps ts : List String} → Pointwise ps ts → Matches ps ts
Pointwise-Matches nil = done
Pointwise-Matches (cons one w) = Matches-cons one (Pointwise-Matches w)

Pointwise-append-Matches :
    {ps ts : List String} (unread others : List String) (first : String)
    → Pointwise ps ts
    → Matches (ps ++ "#" ∷ unread) (ts ++ first ∷ others)
Pointwise-append-Matches unread others first nil = rest refl
Pointwise-append-Matches unread others first (cons one w) =
    Matches-cons one (Pointwise-append-Matches unread others first w)

cases-Matches : {ps ts : List String} → Pointwise ps ts ⊎ Covered ps ts → Matches ps ts
cases-Matches (inl w) = Pointwise-Matches w
cases-Matches {ps} {ts} (inr c) =
    subst (λ l. Matches l ts) (sym c.pattern_split)
      (subst (Matches (c.front ++ "#" ∷ c.unread)) (sym c.topic_split)
        (Pointwise-append-Matches c.unread c.others c.first c.agree))

-- A pattern matches a topic exactly in two cases: both have as many parts, which are the same one by
-- one where the pattern has no "*"; or the pattern has a part "#", the parts before it agree in this
-- way with the topic's first parts, and at least one more part of the topic follows. So "#" does not
-- match a topic that ends in front of it, and what the pattern has after "#" is not looked at.
pub pattern_matches_iff :
    (pattern topic : String)
    → (pattern_matches pattern topic ≡ true) ↔ (
        Pointwise (split b':' pattern) (split b':' topic)
        ⊎ Covered (split b':' pattern) (split b':' topic))
unfolding pattern_matches
pattern_matches_iff pattern topic = (λ h. Matches-cases (sound h), λ c. complete (cases-Matches c))
  where
    sound : pattern_matches pattern topic ≡ true → Matches (split b':' pattern) (split b':' topic)
    sound h = elim (Bool-cases (pattern == topic)) [
      | inl e ↦
          subst (λ t. Matches (split b':' pattern) (split b':' t)) ((eq_iff pattern topic).0 e)
            (Matches-refl (split b':' pattern))
      | inr n ↦ match_parts-Matches (split b':' pattern) (split b':' topic) (ground arith)
    ]

    complete :
        Matches (split b':' pattern) (split b':' topic) → pattern_matches pattern topic ≡ true
    complete m = ground (arith, Matches-match_parts m)
