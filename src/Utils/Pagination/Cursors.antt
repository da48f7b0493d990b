-- ===== src/Utils/Pagination/Cursors.antt =====
-- src/utils/pagination.rs, `encode_cursor` and `decode_cursor`. The base64 engine is a parameter: what
-- it encodes it decodes.
use hypern.Prelude.{
  ℕ, ◌+◌, ◌*◌, ◌/◌, ◌%◌, ◌^◌, ◌<◌, String, ◌≡◌, Option, none, some, List, [], ◌∷◌, arith, eqb,
  if◌then◌else◌, or_default, length,
}

-- u64::to_be_bytes
abbrev pub to_be_bytes : ℕ → List ℕ
to_be_bytes n =
    n / 2 ^ 56 % 256
    ∷ n / 2 ^ 48 % 256
    ∷ n / 2 ^ 40 % 256
    ∷ n / 2 ^ 32 % 256
    ∷ n / 2 ^ 24 % 256
    ∷ n / 2 ^ 16 % 256
    ∷ n / 2 ^ 8 % 256
    ∷ n % 256
    ∷ []

abbrev pub be_value : ℕ → List ℕ → ℕ
be_value acc [] = acc
be_value acc (b ∷ bs) = be_value (acc * 256 + b) bs

-- `<[u8; 8]>::try_from` and `u64::from_be_bytes`
abbrev pub from_be_bytes : List ℕ → Option ℕ
from_be_bytes bs = if eqb (length bs) 8 then some (be_value 0 bs) else none

be_value-to_be_bytes : (n : ℕ) → n < 2 ^ 64 → be_value 0 (to_be_bytes n) ≡ n
be_value-to_be_bytes n h = omega (arith, h)

module _ (encode : List ℕ → String) (decode : String → Option (List ℕ)) where
  abbrev pub encode_cursor : ℕ → String
  encode_cursor offset = encode (to_be_bytes offset)

  unfoldable pub decode_cursor : String → ℕ
  decode_cursor cursor = elim (decode cursor) [
    | none ↦ 0
    | some bs ↦ or_default 0 (from_be_bytes bs)
  ]

  -- An offset of 64 bits is read back from its cursor, where the engine decodes what it encoded.
  pub decode_cursor-encode_cursor :
      (offset : ℕ)
      → decode (encode (to_be_bytes offset)) ≡ some (to_be_bytes offset)
      → offset < 2 ^ 64
      → decode_cursor (encode_cursor offset) ≡ offset
  unfolding decode_cursor
  decode_cursor-encode_cursor offset law h = rw (law, decode_cursor) (be_value-to_be_bytes offset h)
