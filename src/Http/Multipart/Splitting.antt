-- ===== src/Http/Multipart/Splitting.antt =====
-- What `split_multipart` makes of an encoded body.
use hypern.Http.Multipart.{
  new, add_parts, parse_multipart, split_multipart, skip_crlf, split_from, starts_with_bytes,
  one_later, find_bytes, crlf, dashes,
}
use hypern.Prelude.{
  ℕ, zero, suc, ◌+◌, ◌≤◌, String, ◌≡◌, refl, sym, ap, ◌∙◌, inl, inr, true, false, ◌&&◌, Option,
  none, some, List, [], ◌∷◌, ◌++◌, append_assoc, arith, ltb, eqb, if◌then◌else◌, eqb_iff,
  Bool-cases, length, take, drop, length-append,
}

-- The boundary behind the part is the first one in them.
abbrev pub IsDelimited : List ℕ → List ℕ → Type 0
IsDelimited boundary part = find_bytes (part ++ boundary) boundary ≡ some (length part)

abbrev pub AreDelimited : List ℕ → List (List ℕ) → Type 0
AreDelimited boundary [] = Unit
AreDelimited boundary (part ∷ parts) = IsDelimited boundary part × AreDelimited boundary parts

-- The parts behind a boundary, each on lines of its own, as a client writes them (RFC 2046): the
-- last boundary has two dashes behind it, and any epilogue.
abbrev pub encoded : List ℕ → List (List ℕ) → List ℕ → List ℕ
encoded boundary [] epilogue = dashes ++ epilogue
encoded boundary (part ∷ parts) epilogue =
    crlf ++ (part ++ (boundary ++ encoded boundary parts epilogue))

starts_with-append :
    (s n rest : List ℕ)
    → length n ≤ length s
    → starts_with_bytes (s ++ rest) n ≡ starts_with_bytes s n
starts_with-append s [] rest h = refl
starts_with-append [] (n ∷ ns) rest h = absurd (omega (arith, h))
starts_with-append (c ∷ s) (n ∷ ns) rest h =
    ap (λ b. eqb c n && b) (starts_with-append s ns rest (omega (arith, h)))

starts_with_self : (n rest : List ℕ) → starts_with_bytes (n ++ rest) n ≡ true
starts_with_self [] rest = refl
starts_with_self (c ∷ n) rest = rw ((eqb_iff c c).1 refl) (starts_with_self n rest)

one_later-some : (o : Option ℕ) (n : ℕ) → one_later o ≡ some (suc n) → o ≡ some n
one_later-some none n h = ground (arith, h)
one_later-some (some m) n h = ground (arith, h)

-- One round of `find_bytes`.
find_bytes-cons :
    (c : ℕ) (s needle : List ℕ)
    → find_bytes (c ∷ s) needle
      ≡ (if starts_with_bytes (c ∷ s) needle then some 0 else one_later (find_bytes s needle))
unfolding find_bytes
find_bytes-cons c s needle = refl

module _ (b : ℕ) (bs : List ℕ) where
  abbrev boundary : List ℕ
  boundary = b ∷ bs

  find_bytes-append :
      (p rest : List ℕ)
      → IsDelimited boundary p
      → find_bytes (p ++ (boundary ++ rest)) boundary ≡ some (length p)
  find_bytes-append [] rest h =
      find_bytes-cons b (bs ++ rest) boundary ∙ rw (starts_with_self boundary rest)
  find_bytes-append (c ∷ p) rest h =
      let first = find_bytes-cons c (p ++ boundary) boundary in
      let longer : length boundary ≤ length (c ∷ (p ++ boundary)) =
        omega (arith, length-append p boundary) in
      elim (Bool-cases (starts_with_bytes (c ∷ (p ++ boundary)) boundary)) [
        | inl e ↦ absurd (ground (arith, first, h, e))
        | inr e ↦
            let later : find_bytes (p ++ boundary) boundary ≡ some (length p) =
              one_later-some (find_bytes (p ++ boundary) boundary) (length p)
                (rw e at (sym first ∙ h)) in
            let same : starts_with_bytes (c ∷ (p ++ (boundary ++ rest))) boundary ≡ false =
              ap (λ x. starts_with_bytes (c ∷ x) boundary) (sym (append_assoc p boundary rest))
              ∙ starts_with-append (c ∷ (p ++ boundary)) boundary rest longer
              ∙ e in
            find_bytes-cons c (p ++ (boundary ++ rest)) boundary
            ∙ rw (same, find_bytes-append p rest later)
      ]

  take-part : (p rest : List ℕ) → take (length p) (p ++ rest) ≡ p
  take-part [] rest = refl
  take-part (c ∷ p) rest = rw (take-part p rest)

  drop-part : (p rest : List ℕ) (n : ℕ) → drop (length p + n) (p ++ rest) ≡ drop n rest
  drop-part [] rest n = ap (λ m. drop m rest) (omega arith)
  drop-part (c ∷ p) rest n =
      let one : length (c ∷ p) + n ≡ suc (length p + n) = omega arith in
      ap (λ m. drop m (c ∷ (p ++ rest))) one ∙ drop-part p rest n

  drop-boundary :
      (p rest : List ℕ) → drop (length p + length boundary) (p ++ (boundary ++ rest)) ≡ rest
  drop-boundary p rest =
      let none_left : length boundary ≡ length boundary + 0 = omega arith in
      drop-part p (boundary ++ rest) (length boundary)
      ∙ ap (λ m. drop m (boundary ++ rest)) none_left
      ∙ drop-part boundary rest 0

  skip_crlf-part :
      (p rest : List ℕ) → skip_crlf (crlf ++ (p ++ (boundary ++ rest))) ≡ p ++ (boundary ++ rest)
  unfolding skip_crlf
  skip_crlf-part p rest =
      let more : ltb 2 (length (crlf ++ (p ++ (boundary ++ rest)))) ≡ true =
        ground (arith, length-append p (boundary ++ rest)) in
      rw more

  split_from-some :
      (fuel n : ℕ) (rest : List ℕ)
      → find_bytes rest boundary ≡ some n
      → split_from (suc fuel) rest boundary ≡ (
          let left = drop (n + length boundary) rest in
          if starts_with_bytes left dashes
          then take n rest ∷ []
          else take n rest ∷ split_from fuel (skip_crlf left) boundary)
  unfolding split_from
  split_from-some fuel n rest e = rw (e, split_from)

  split_from-encoded :
      (p : List ℕ) (ps : List (List ℕ)) (epilogue : List ℕ) (fuel : ℕ)
      → AreDelimited boundary (p ∷ ps)
      → length ps ≤ fuel
      → split_from (suc fuel) (p ++ (boundary ++ encoded boundary ps epilogue)) boundary ≡ p ∷ ps
  split_from-encoded p [] epilogue fuel (h, hs) enough =
      split_from-some fuel (length p) _ (find_bytes-append p (dashes ++ epilogue) h)
      ∙ rw (drop-boundary p (dashes ++ epilogue), take-part)
  split_from-encoded p (q ∷ qs) epilogue zero (h, hs) enough = absurd (omega (arith, enough))
  split_from-encoded p (q ∷ qs) epilogue (suc fuel) (h, hs) enough =
      split_from-some (suc fuel) (length p) _
        (find_bytes-append p (encoded boundary (q ∷ qs) epilogue) h)
      ∙ rw (
        drop-boundary p (encoded boundary (q ∷ qs) epilogue),
        take-part,
        skip_crlf-part q (encoded boundary qs epilogue),
        split_from-encoded q qs epilogue fuel hs (omega (arith, enough)),
      )

  length-encoded :
      (ps : List (List ℕ)) (epilogue : List ℕ) → length ps ≤ length (encoded boundary ps epilogue)
  length-encoded [] epilogue = omega arith
  length-encoded (p ∷ ps) epilogue = omega (
    arith,
    length-append p (boundary ++ encoded boundary ps epilogue),
    length-append boundary (encoded boundary ps epilogue),
    length-encoded ps epilogue,
  )

  split_multipart-encoded :
      (preamble p : List ℕ) (ps : List (List ℕ)) (epilogue : List ℕ)
      → IsDelimited boundary preamble
      → AreDelimited boundary (p ∷ ps)
      → split_multipart (preamble ++ (boundary ++ encoded boundary (p ∷ ps) epilogue)) boundary
        ≡ p ∷ ps
  unfolding split_multipart
  split_multipart-encoded preamble p ps epilogue first h =
      let body = preamble ++ (boundary ++ encoded boundary (p ∷ ps) epilogue) in
      let at_preamble : find_bytes body boundary ≡ some (length preamble) =
        find_bytes-append preamble (encoded boundary (p ∷ ps) epilogue) first in
      let enough : length ps ≤ length body = omega (
        arith,
        length-append preamble (boundary ++ encoded boundary (p ∷ ps) epilogue),
        length-append boundary (encoded boundary (p ∷ ps) epilogue),
        length-encoded (p ∷ ps) epilogue,
      ) in
      rw
        (
          at_preamble,
          drop-boundary preamble (encoded boundary (p ∷ ps) epilogue),
          skip_crlf-part p (encoded boundary ps epilogue),
        )
        (split_from-encoded p ps epilogue (length body) h enough)

module _ (trim to_lowercase : String → String) (from_utf8_lossy : List ℕ → String)
    (trim_end_crlf : String → String) where
  -- From a body in which no part has the boundary, the parser adds each encoded part once and in order,
  -- whatever stands before the first boundary and behind the last.
  pub parse_multipart-encoded :
      (boundary preamble p : List ℕ) (ps : List (List ℕ)) (epilogue : List ℕ)
      → IsDelimited (dashes ++ boundary) preamble
      → AreDelimited (dashes ++ boundary) (p ∷ ps)
      → parse_multipart trim to_lowercase from_utf8_lossy trim_end_crlf
          (preamble ++ ((dashes ++ boundary) ++ encoded (dashes ++ boundary) (p ∷ ps) epilogue))
          boundary
        ≡ add_parts trim to_lowercase from_utf8_lossy trim_end_crlf (p ∷ ps) new
  unfolding parse_multipart
  parse_multipart-encoded boundary preamble p ps epilogue first h =
      ap (λ parts. add_parts trim to_lowercase from_utf8_lossy trim_end_crlf parts new)
        (split_multipart-encoded b'-' (b'-' ∷ boundary) preamble p ps epilogue first h)
