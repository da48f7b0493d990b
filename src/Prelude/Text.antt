-- ===== src/Prelude/Text.antt =====
-- `str::split` by a character, `splitn`, `strip_prefix`, over the characters of a text.
use Prim.Native.Char.{Char, code}
use Prim.Native.String
use Prim.Native.String.append
use Prim.Native.String.{[], ◌∷◌}
use Prim.Native.Nat.{ℕ}
use mathlib.Core.Path.{◌≡◌, refl, sym, ap, subst}
use mathlib.Core.Bool.{Bool, false, ◌&&◌, ◌||◌}
use text.Mathlib.Text.{starts_with}
use mathlib.Core.Option.{Option, none, some}
use hypern.Prelude.{
  String, inl, inr, true, List, eqb, if◌then◌else◌, eqb_iff, Bool-cases, ◌==◌, string_eq, nat_eq,
}

-- `str::contains` by a text
unfoldable pub contains : String → String → Bool
contains [] p = starts_with [] p
contains (c ∷ s) p = let rest = contains s p in starts_with (c ∷ s) p || rest

abbrev pub push : String → Char → String
push s c = String.◌++◌ s (c ∷ [])

-- `str::is_empty`
abbrev pub is_blank : String → Bool
is_blank [] = true
is_blank (c ∷ s) = false

-- The bytes of a text of ASCII characters.
abbrev pub codes : String → List ℕ
codes [] = List.[]
codes (c ∷ s) = List.◌∷◌ (code c) (codes s)

-- `splitn(2, c)` where both parts are wanted: none without the character.
unfoldable pub split_once : ℕ → String → Option (String × String)
split_once sep [] = none
split_once sep (c ∷ s) =
    let rest = split_once sep s in
    if eqb (code c) sep
    then some ("", s)
    else elim rest [ none ↦ none | some (a, b) ↦ some (c ∷ a, b) ]

abbrev pub IsWithout : ℕ → String → Type 0
IsWithout sep [] = Unit
IsWithout sep (c ∷ s) = (eqb (code c) sep ≡ false) × IsWithout sep s

-- A text is parted at its first separator.
pub split_once-append :
    (sep : ℕ) (c : Char) (s t : String)
    → code c ≡ sep
    → IsWithout sep s
    → split_once sep (String.◌++◌ s (c ∷ t)) ≡ some (s, t)
unfolding split_once
split_once-append sep c [] t h k = rw (append.nil (c ∷ t), (eqb_iff (code c) sep).1 h)
split_once-append sep c (d ∷ s) t h (k, ks) =
    rw (append.cons d s (c ∷ t), k, split_once-append sep c s t h ks)

-- `str::strip_prefix`
unfoldable pub strip_prefix : String → String → Option String
strip_prefix [] s = some s
strip_prefix (c ∷ p) [] = none
strip_prefix (c ∷ p) (d ∷ s) =
    let rest = strip_prefix p s in if eqb (code c) (code d) then rest else none

pub strip_prefix-append : (p s : String) → strip_prefix p (String.◌++◌ p s) ≡ some s
unfolding strip_prefix
strip_prefix-append [] s = ap some (append.nil s)
strip_prefix-append (c ∷ p) s =
    rw (append.cons c p s, (eqb_iff (code c) (code c)).1 refl, strip_prefix-append p s)

-- `cur` is the part that is being read.
split_from : ℕ → String → String → List String
split_from sep cur [] = List.◌∷◌ cur List.[]
split_from sep cur (c ∷ s) =
    let closed = split_from sep "" s in
    let longer = split_from sep (push cur c) s in
    if eqb (code c) sep then List.◌∷◌ cur closed else longer

unfoldable pub split : ℕ → String → List String
unfolding split_from
split sep s = split_from sep "" s

-- `str::trim_end_matches` and `trim_start_matches` by a character
unfoldable pub trim_end_matches : ℕ → String → String
trim_end_matches sep [] = ""
trim_end_matches sep (c ∷ s) =
    let rest = trim_end_matches sep s in if rest == "" && eqb (code c) sep then "" else c ∷ rest

unfoldable pub trim_start_matches : ℕ → String → String
trim_start_matches sep [] = ""
trim_start_matches sep (c ∷ s) =
    let rest = trim_start_matches sep s in if eqb (code c) sep then rest else c ∷ s

-- Whether a text begins with a character.
abbrev pub begins : ℕ → String → Bool
begins sep [] = false
begins sep (c ∷ s) = eqb (code c) sep

pub begins-trim_start_matches :
    (sep : ℕ) (s : String) → begins sep (trim_start_matches sep s) ≡ false
unfolding trim_start_matches
begins-trim_start_matches sep [] = refl
begins-trim_start_matches sep (c ∷ s) = elim (Bool-cases (eqb (code c) sep)) [
  | inl e ↦ rw (e, trim_start_matches) (begins-trim_start_matches sep s)
  | inr e ↦ rw (e, trim_start_matches) e
]

pub append-IsWithout :
    (sep : ℕ) (s t : String) → IsWithout sep s → IsWithout sep t → IsWithout sep (String.◌++◌ s t)
append-IsWithout sep [] t h k = subst (IsWithout sep) (sym (append.nil t)) k
append-IsWithout sep (c ∷ s) t (h, hs) k =
    subst (IsWithout sep) (sym (append.cons c s t)) (h, append-IsWithout sep s t hs k)
