-- ===== src/Middleware/BasicAuth/Sextets.antt =====
-- `base64_decode`'s loop on each of the four bytes that stand for three.
use Prim.Native.Nat.{bit_or}
use hypern.Middleware.BasicAuth.Base64.{Loop, position, absorb, decode_all, alphabet}
use hypern.Prelude.{
  ℕ, zero, suc, ◌+◌, ◌-◌, ◌*◌, ◌/◌, ◌%◌, ◌^◌, ◌<◌, ◌≡◌, refl, ap, ◌∙◌, Bool, true, false, not, ◌&&◌,
  Option, none, some, List, [], ◌∷◌, ◌++◌, arith, leb, eqb, eqb_iff,
}

unfoldable all_below : ℕ → (ℕ → Bool) → Bool
all_below zero p = true
all_below (suc n) p = p n && all_below n p

all_below_lem : (n : ℕ) (p : ℕ → Bool) (x : ℕ) → all_below n p ≡ true → x < n → p x ≡ true
unfolding all_below
all_below_lem zero p x h lt = absurd (omega arith)
all_below_lem (suc n) p x h lt = ground (arith, all_below_lem n p x)

unfoldable nth : List ℕ → ℕ → ℕ
nth [] n = 0
nth (x ∷ xs) zero = x
nth (x ∷ xs) (suc n) = nth xs n

-- The byte that stands for six bits.
unfoldable pub symbol : ℕ → ℕ
unfolding nth
symbol value = nth alphabet value

symbol_table :
    all_below 64 (λ v. elim (position (symbol v) alphabet) [
      | none ↦ false
      | some w ↦ eqb w v && not (eqb (symbol v) 61)
    ])
    ≡ true
unfolding all_below position nth alphabet symbol
symbol_table = refl

or_table : all_below 64 (λ b. all_below 64 (λ v. eqb (bit_or (b * 64) v) (b * 64 + v))) ≡ true
unfolding all_below
or_table = refl

pub position-symbol : (v : ℕ) → v < 64 → position (symbol v) alphabet ≡ some v
position-symbol v lt = ground (arith, all_below_lem 64 _ v symbol_table lt)

pub symbol-padding : (v : ℕ) → v < 64 → eqb (symbol v) 61 ≡ false
symbol-padding v lt = ground (arith, all_below_lem 64 _ v symbol_table lt)

or-plus : (b v : ℕ) → b < 64 → v < 64 → bit_or (b * 64) v ≡ b * 64 + v
or-plus b v lt lt' = (eqb_iff _ _).0 (all_below_lem 64 _ v (all_below_lem 64 _ b or_table lt) lt')

-- The buffer after a byte's value, before a byte is taken from it.
shifted : (b v : ℕ) → b < 64 → v < 64 → bit_or (b * 2 ^ 6 % 2 ^ 32) v ≡ b * 64 + v
shifted b v lt lt' = ap (λ x. bit_or x v) (omega arith) ∙ or-plus b v lt lt'

abbrev pub at : ℕ → ℕ → List ℕ → Loop
at buffer bits_collected output = record {
  buffer = buffer;
  bits_collected = bits_collected;
  output = output;
}

absorb-zero : (v : ℕ) (o : List ℕ) → v < 64 → absorb v (at 0 0 o) ≡ at v 6 o
unfolding absorb
absorb-zero v o lt = ap (λ x. at x 6 o) (shifted 0 v (omega arith) lt ∙ omega arith)

at_least : (n : ℕ) → leb 8 (n + 2 + 6) ≡ true
at_least n = ground arith

left : (n : ℕ) → n + 2 + 6 - 8 ≡ n
left n = omega arith

-- A byte is taken where `6 + n` bits are left of two values.
absorb-some :
    (b n v : ℕ) (o : List ℕ)
    → b < 64
    → v < 64
    → absorb v (at b (n + 2) o)
      ≡ at ((b * 64 + v) % 2 ^ n) n (o ++ ((b * 64 + v) / 2 ^ n % 256) ∷ [])
unfolding absorb
absorb-some b n v o lt lt' = rw (shifted b v lt lt', at_least n, left n)

module _ (cs o : List ℕ) where
  cong_at : {x y b c : ℕ} (n : ℕ) → x ≡ y → b ≡ c → at x n (o ++ b ∷ []) ≡ at y n (o ++ c ∷ [])
  cong_at n p q = rw (p, q)

  step : (v : ℕ) (l : Loop) → v < 64 → decode_all (symbol v ∷ cs) l ≡ decode_all cs (absorb v l)
  unfolding decode_all
  step v l lt =
      ap (λ (x : Option ℕ). elim x [ none ↦ none | some value ↦ decode_all cs (absorb value l) ])
        (position-symbol v lt)

  pub first_step :
      (a : ℕ)
      → a < 256
      → decode_all (symbol (a / 4) ∷ cs) (at 0 0 o) ≡ decode_all cs (at (a / 4) 6 o)
  first_step a lt =
      step (a / 4) _ (omega arith) ∙ ap (decode_all cs) (absorb-zero (a / 4) o (omega arith))

  pub second_step :
      (a x : ℕ)
      → a < 256
      → x < 16
      → decode_all (symbol (a % 4 * 16 + x) ∷ cs) (at (a / 4) 6 o)
        ≡ decode_all cs (at x 4 (o ++ a ∷ []))
  second_step a x lt lt' =
      step (a % 4 * 16 + x) _ (omega arith)
      ∙ ap (decode_all cs) (
          absorb-some (a / 4) 4 (a % 4 * 16 + x) o (omega arith) (omega arith)
          ∙ cong_at 4 (omega arith) (omega arith))

  pub third_step :
      (b x : ℕ)
      → b < 256
      → x < 4
      → decode_all (symbol (b % 16 * 4 + x) ∷ cs) (at (b / 16) 4 o)
        ≡ decode_all cs (at x 2 (o ++ b ∷ []))
  third_step b x lt lt' =
      step (b % 16 * 4 + x) _ (omega arith)
      ∙ ap (decode_all cs) (
          absorb-some (b / 16) 2 (b % 16 * 4 + x) o (omega arith) (omega arith)
          ∙ cong_at 2 (omega arith) (omega arith))

  pub fourth_step :
      (c : ℕ)
      → c < 256
      → decode_all (symbol (c % 64) ∷ cs) (at (c / 64) 2 o) ≡ decode_all cs (at 0 0 (o ++ c ∷ []))
  fourth_step c lt =
      step (c % 64) _ (omega arith)
      ∙ ap (decode_all cs) (
          absorb-some (c / 64) 0 (c % 64) o (omega arith) (omega arith)
          ∙ cong_at 0 (omega arith) (omega arith))
