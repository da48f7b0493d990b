-- ===== src/Prelude/Lines.antt =====
-- `str::lines`, and the lines that a reader of CR, LF or CRLF endings sees.
use Prim.Native.Char.{Char, code}
use Prim.Native.String
use Prim.Native.String.append
use Prim.Native.String.{[], ◌∷◌}
use text.Mathlib.TextLemmas.{append_assoc as str_assoc}
use text.Mathlib.TextEquality.{Char-path}
use hypern.Prelude.Text.{is_blank, IsWithout, append-IsWithout}
use hypern.Prelude.{
  String, ◌≡◌, refl, sym, ap, ◌∙◌, inl, inr, Bool, true, false, ◌&&◌, List, ◌++◌, arith, eqb,
  if◌then◌else◌, eqb_iff, Bool-cases, is_empty,
}

abbrev pub starts_newline : String → Bool
starts_newline [] = false
starts_newline (c ∷ s) = eqb (code c) b'\n'

-- The character in front of the first line.
abbrev pub onto : Char → List String → List String
onto c List.[] = List.◌∷◌ (c ∷ []) List.[]
onto c (List.◌∷◌ l ls) = List.◌∷◌ (c ∷ l) ls

-- `str::lines`: ended by LF or CRLF, the last ending optional, a lone CR kept.
unfoldable pub lines : String → List String
lines [] = List.[]
lines (c ∷ s) =
    let rest = lines s in
    if eqb (code c) b'\n'
    then List.◌∷◌ "" rest
    else if eqb (code c) b'\r' && starts_newline s
    then rest
    else onto c rest

-- The same, but nothing is made of a line that has no ending yet.
abbrev pub onto_ended : Char → List String → List String
onto_ended c List.[] = List.[]
onto_ended c (List.◌∷◌ l ls) = List.◌∷◌ (c ∷ l) ls

-- The ended lines of a text, where LF, CR and CRLF each end a line.
unfoldable pub ended_lines : String → List String
ended_lines [] = List.[]
ended_lines (c ∷ s) =
    let rest = ended_lines s in
    if eqb (code c) b'\n'
    then List.◌∷◌ "" rest
    else if eqb (code c) b'\r'
    then (if starts_newline s then rest else List.◌∷◌ "" rest)
    else onto_ended c rest

-- No LF and no CR.
abbrev pub IsOneLine : String → Type 0
IsOneLine s = IsWithout b'\n' s × IsWithout b'\r' s

pub ended_lines-append :
    (l s : String)
    → IsOneLine l
    → ended_lines (String.◌++◌ l (String.◌++◌ "\n" s)) ≡ List.◌∷◌ l (ended_lines s)
unfolding ended_lines
ended_lines-append [] s h =
    rw (append.nil (String.◌++◌ "\n" s), append.cons "\n" "" s, append.nil s)
ended_lines-append (c ∷ l) s ((h, hs), (k, ks)) =
    rw (append.cons c l (String.◌++◌ "\n" s), h, k, ended_lines-append l s (hs, ks))

abbrev pub AreOneLine : List String → Type 0
AreOneLine List.[] = Unit
AreOneLine (List.◌∷◌ l ls) = IsOneLine l × AreOneLine ls

onto-AreOneLine :
    (c : Char) (ls : List String)
    → eqb (code c) b'\n' ≡ false
    → eqb (code c) b'\r' ≡ false
    → AreOneLine ls
    → AreOneLine (onto c ls)
onto-AreOneLine c List.[] h k w = (((h, tt), (k, tt)), tt)
onto-AreOneLine c (List.◌∷◌ l ls) h k ((a, b), w) = (((h, a), (k, b)), w)

-- A text without CR has lines without LF and CR.
pub lines-AreOneLine : (s : String) → IsWithout b'\r' s → AreOneLine (lines s)
unfolding lines
lines-AreOneLine [] w = tt
lines-AreOneLine (c ∷ s) (h, hs) = elim (Bool-cases (eqb (code c) b'\n')) [
  | inl e ↦ rw e (((tt, tt), lines-AreOneLine s hs))
  | inr e ↦ rw (e, h) (onto-AreOneLine c (lines s) e h (lines-AreOneLine s hs))
]

-- The lines of a text with an LF between them.
abbrev pub join_lines : List String → String
join_lines List.[] = ""
join_lines (List.◌∷◌ l List.[]) = l
join_lines (List.◌∷◌ l (List.◌∷◌ m ls)) =
    String.◌++◌ l (String.◌++◌ "\n" (join_lines (List.◌∷◌ m ls)))

-- Lines, each with its ending.
abbrev pub ended : List String → String
ended List.[] = ""
ended (List.◌∷◌ l ls) = String.◌++◌ l (String.◌++◌ "\n" (ended ls))

pub ended-append : (xs ys : List String) → ended (xs ++ ys) ≡ String.◌++◌ (ended xs) (ended ys)
ended-append List.[] ys = sym (append.nil (ended ys))
ended-append (List.◌∷◌ x xs) ys = simp (ended-append xs ys, str_assoc)

pub ended_lines-ended :
    (ls : List String) (s : String)
    → AreOneLine ls
    → ended_lines (String.◌++◌ (ended ls) s) ≡ ls ++ ended_lines s
ended_lines-ended List.[] s w = rw (append.nil s)
ended_lines-ended (List.◌∷◌ l ls) s (h, w) =
    ap ended_lines (simp (str_assoc))
    ∙ ended_lines-append l (String.◌++◌ (ended ls) s) h
    ∙ ap (List.◌∷◌ l) (ended_lines-ended ls s w)

pub append-IsOneLine : (s t : String) → IsOneLine s → IsOneLine t → IsOneLine (String.◌++◌ s t)
append-IsOneLine s t (a, b) (c, d) =
    (append-IsWithout b'\n' s t a c, append-IsWithout b'\r' s t b d)

pub append-AreOneLine :
    (xs ys : List String) → AreOneLine xs → AreOneLine ys → AreOneLine (xs ++ ys)
append-AreOneLine List.[] ys h k = k
append-AreOneLine (List.◌∷◌ x xs) ys (h, hs) k = (h, append-AreOneLine xs ys hs k)

is_empty-onto : (c : Char) (ls : List String) → is_empty (onto c ls) ≡ false
is_empty-onto c List.[] = refl
is_empty-onto c (List.◌∷◌ l ls) = refl

lines-newline : (s : String) → starts_newline s ≡ true → is_empty (lines s) ≡ false
unfolding lines
lines-newline [] h = ground arith
lines-newline (c ∷ s) h = rw h

-- A text that is not empty has a line.
pub lines-cons : (c : Char) (s : String) → is_empty (lines (c ∷ s)) ≡ false
unfolding lines
lines-cons c s = elim (Bool-cases (eqb (code c) b'\n')) [
  | inl e ↦ rw e
  | inr e ↦ elim (Bool-cases (eqb (code c) b'\r' && starts_newline s)) [
    | inl k ↦ rw (e, k) (lines-newline s (ground (arith, k)))
    | inr k ↦ rw (e, k) (is_empty-onto c (lines s))
  ]
]

pub is_empty-lines : (s : String) → is_blank s ≡ false → is_empty (lines s) ≡ false
is_empty-lines [] h = ground arith
is_empty-lines (c ∷ s) h = lines-cons c s

abbrev pub ends_newline : String → Bool
ends_newline [] = false
ends_newline (c ∷ []) = eqb (code c) b'\n'
ends_newline (c ∷ d ∷ s) = ends_newline (d ∷ s)

join_lines-onto : (c : Char) (ls : List String) → join_lines (onto c ls) ≡ c ∷ join_lines ls
join_lines-onto c List.[] = refl
join_lines-onto c (List.◌∷◌ l List.[]) = refl
join_lines-onto c (List.◌∷◌ l (List.◌∷◌ m ls)) = append.cons c l _

join_lines-cons :
    (ls : List String) → is_empty ls ≡ false → join_lines (List.◌∷◌ "" ls) ≡ "\n" ∷ join_lines ls
join_lines-cons List.[] h = ground arith
join_lines-cons (List.◌∷◌ l ls) h =
    append.nil _ ∙ append.cons "\n" "" _ ∙ ap (String.◌∷◌ "\n") (append.nil _)

-- Joining the lines gives back a text without CR that does not end in LF.
pub join_lines-lines :
    (s : String) → IsWithout b'\r' s → ends_newline s ≡ false → join_lines (lines s) ≡ s
unfolding lines
join_lines-lines [] w e = refl
join_lines-lines (c ∷ []) (h, w) e = rw (e, h) refl
join_lines-lines (c ∷ d ∷ s) (h, w) e = elim (Bool-cases (eqb (code c) b'\n')) [
  | inl k ↦
      let newline : "\n" ≡ c = sym (Char-path c "\n" ((eqb_iff (code c) b'\n').0 k)) in
      rw k (
        join_lines-cons (lines (d ∷ s)) (lines-cons d s)
        ∙ ap (String.◌∷◌ "\n") (join_lines-lines (d ∷ s) w e)
        ∙ ap (λ x. x ∷ d ∷ s) newline)
  | inr k ↦
      rw (k, h)
        (join_lines-onto c (lines (d ∷ s)) ∙ ap (String.◌∷◌ c) (join_lines-lines (d ∷ s) w e))
]
