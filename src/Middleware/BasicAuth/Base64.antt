-- ===== src/Middleware/BasicAuth/Base64.antt =====
-- src/middleware/builtin.rs, `base64_decode`: the decoder of the basic authentication, on the bytes
-- of its input.
use Prim.Native.Nat.{bit_or}
use mathlib.Core.Option
use hypern.Prelude.Text.{codes}
use hypern.Prelude.{
  ℕ, suc, ◌+◌, ◌-◌, ◌*◌, ◌/◌, ◌%◌, ◌^◌, ◌&&◌, Option, none, some, List, [], ◌∷◌, ◌++◌, leb, eqb,
  if◌then◌else◌, is_empty,
}

-- ALPHABET
unfoldable pub alphabet : List ℕ
alphabet = codes "ABCDEFGHIJKLMNOPQRSTUVWXYZabcdefghijklmnopqrstuvwxyz0123456789+/"

-- `ALPHABET.iter().position(|&x| x == c)`
unfoldable pub position : ℕ → List ℕ → Option ℕ
position c [] = none
position c (x ∷ xs) = let rest = position c xs in if eqb x c then some 0 else Option.map suc rest

-- `str::trim_end_matches` by a character
unfoldable pub trim_end_matches : ℕ → List ℕ → List ℕ
trim_end_matches c [] = []
trim_end_matches c (x ∷ xs) =
    let rest = trim_end_matches c xs in if is_empty rest && eqb x c then [] else x ∷ rest

-- The variables of the loop: `buffer` is a u32.
pub record Loop : Type 0 where
  pub buffer : ℕ
  pub bits_collected : ℕ
  pub output : List ℕ

-- The body of the loop on the value of a byte; `& ((1 << n) - 1)` is `% 2 ^ n`.
unfoldable pub absorb : ℕ → Loop → Loop
absorb value l =
    let buffer = bit_or (l.buffer * 2 ^ 6 % 2 ^ 32) value in
    let bits_collected = l.bits_collected + 6 in
    let left = bits_collected - 8 in
    if leb 8 bits_collected
    then record {
      buffer = buffer % 2 ^ left;
      bits_collected = left;
      output = l.output ++ (buffer / 2 ^ left % 256) ∷ [];
    }
    else record { buffer = buffer; bits_collected = bits_collected; output = l.output }

unfoldable pub decode_all : List ℕ → Loop → Option (List ℕ)
decode_all [] l = some l.output
decode_all (c ∷ cs) l = elim (position c alphabet) [
  | none ↦ none
  | some value ↦ decode_all cs (absorb value l)
]

unfoldable pub base64_decode : List ℕ → Option (List ℕ)
base64_decode input =
    decode_all (trim_end_matches 61 input) (record { buffer = 0; bits_collected = 0; output = [] })
