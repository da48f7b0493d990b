-- ===== src/Middleware/BasicAuth/RoundTrip.antt =====
-- `base64_decode` against the encoding of RFC 4648.
use hypern.Middleware.BasicAuth.Base64.{trim_end_matches, decode_all, base64_decode}
use hypern.Middleware.BasicAuth.Sextets.{
  symbol, symbol-padding, at, first_step, second_step, third_step, fourth_step,
}
use hypern.Prelude.{
  ℕ, zero, suc, ◌+◌, ◌*◌, ◌/◌, ◌%◌, ◌<◌, ◌≡◌, refl, sym, ap, ◌∙◌, inl, inr, some, List, [], ◌∷◌,
  ◌++◌, append-nil, append_assoc, arith, Bool-cases, is_empty,
}

-- The encoding without its padding.
abbrev pub encode : List ℕ → List ℕ
encode [] = []
encode (a ∷ []) = symbol (a / 4) ∷ symbol (a % 4 * 16) ∷ []
encode (a ∷ b ∷ []) = symbol (a / 4) ∷ symbol (a % 4 * 16 + b / 16) ∷ symbol (b % 16 * 4) ∷ []
encode (a ∷ b ∷ c ∷ bs) =
    symbol (a / 4)
    ∷ symbol (a % 4 * 16 + b / 16)
    ∷ symbol (b % 16 * 4 + c / 64)
    ∷ symbol (c % 64)
    ∷ encode bs

abbrev pub padding : ℕ → List ℕ
padding zero = []
padding (suc n) = 61 ∷ padding n

abbrev pub AreBytes : List ℕ → Type 0
AreBytes [] = Unit
AreBytes (b ∷ bs) = (b < 256) × AreBytes bs

plus_zero : (n : ℕ) → n ≡ n + 0
plus_zero n = omega arith

-- The loop returns the bytes of an encoding, after those that it already has.
decode_all-encode :
    (bs o : List ℕ) → AreBytes bs → decode_all (encode bs) (at 0 0 o) ≡ some (o ++ bs)
unfolding decode_all
decode_all-encode [] o h = ap some (sym (append-nil o))
decode_all-encode (a ∷ []) o (ha, h) =
    first_step (symbol (a % 4 * 16) ∷ []) o a ha
    ∙ ap (λ x. decode_all (symbol x ∷ []) (at (a / 4) 6 o)) (plus_zero (a % 4 * 16))
    ∙ second_step [] o a 0 ha (omega arith)
decode_all-encode (a ∷ b ∷ []) o (ha, (hb, h)) =
    let t3 = symbol (b % 16 * 4) ∷ [] in
    first_step (symbol (a % 4 * 16 + b / 16) ∷ t3) o a ha
    ∙ second_step t3 o a (b / 16) ha (omega arith)
    ∙ ap (λ x. decode_all (symbol x ∷ []) (at (b / 16) 4 (o ++ a ∷ []))) (plus_zero (b % 16 * 4))
    ∙ third_step [] (o ++ a ∷ []) b 0 hb (omega arith)
    ∙ ap some (append_assoc o (a ∷ []) (b ∷ []))
decode_all-encode (a ∷ b ∷ c ∷ bs) o (ha, (hb, (hc, h))) =
    let t4 = symbol (c % 64) ∷ encode bs in
    let t3 = symbol (b % 16 * 4 + c / 64) ∷ t4 in
    first_step (symbol (a % 4 * 16 + b / 16) ∷ t3) o a ha
    ∙ second_step t3 o a (b / 16) ha (omega arith)
    ∙ third_step t4 (o ++ a ∷ []) b (c / 64) hb (omega arith)
    ∙ fourth_step (encode bs) ((o ++ a ∷ []) ++ b ∷ []) c hc
    ∙ decode_all-encode bs (((o ++ a ∷ []) ++ b ∷ []) ++ c ∷ []) h
    ∙ ap some (
        append_assoc ((o ++ a ∷ []) ++ b ∷ []) (c ∷ []) bs
        ∙ append_assoc (o ++ a ∷ []) (b ∷ []) (c ∷ bs)
        ∙ append_assoc o (a ∷ []) (b ∷ c ∷ bs))

trim_end-padding : (n : ℕ) → trim_end_matches 61 (padding n) ≡ []
unfolding trim_end_matches
trim_end-padding zero = refl
trim_end-padding (suc n) = rw (trim_end-padding n)

trim_end-symbol :
    (v : ℕ) (cs : List ℕ)
    → v < 64
    → trim_end_matches 61 (symbol v ∷ cs) ≡ symbol v ∷ trim_end_matches 61 cs
unfolding trim_end_matches
trim_end-symbol v cs lt = elim (Bool-cases (is_empty (trim_end_matches 61 cs))) [
  | inl e ↦ rw (e, symbol-padding v lt)
  | inr e ↦ rw e
]

trim_end-encode :
    (bs : List ℕ) (n : ℕ) → AreBytes bs → trim_end_matches 61 (encode bs ++ padding n) ≡ encode bs
trim_end-encode [] n h = trim_end-padding n
trim_end-encode (a ∷ []) n (ha, h) =
    trim_end-symbol (a / 4) _ (omega arith)
    ∙ ap (λ x. symbol (a / 4) ∷ x)
        (trim_end-symbol (a % 4 * 16) _ (omega arith)
          ∙ ap (λ x. symbol (a % 4 * 16) ∷ x) (trim_end-padding n))
trim_end-encode (a ∷ b ∷ []) n (ha, (hb, h)) = rw (
  trim_end-symbol (a / 4) (symbol (a % 4 * 16 + b / 16) ∷ symbol (b % 16 * 4) ∷ padding n)
      (omega arith),
  trim_end-symbol (a % 4 * 16 + b / 16) (symbol (b % 16 * 4) ∷ padding n) (omega arith),
  trim_end-symbol (b % 16 * 4) (padding n) (omega arith),
  trim_end-padding n,
)
trim_end-encode (a ∷ b ∷ c ∷ bs) n (ha, (hb, (hc, h))) =
    let t4 = symbol (c % 64) ∷ encode bs ++ padding n in
    let t3 = symbol (b % 16 * 4 + c / 64) ∷ t4 in
    rw (
      trim_end-symbol (a / 4) (symbol (a % 4 * 16 + b / 16) ∷ t3) (omega arith),
      trim_end-symbol (a % 4 * 16 + b / 16) t3 (omega arith),
      trim_end-symbol (b % 16 * 4 + c / 64) t4 (omega arith),
      trim_end-symbol (c % 64) (encode bs ++ padding n) (omega arith),
      trim_end-encode bs n h,
    )

-- `base64_decode` returns the bytes of every base64 encoding, with its padding or with any other
-- number of `=` behind it.
pub base64_decode-encode :
    (bs : List ℕ) (n : ℕ) → AreBytes bs → base64_decode (encode bs ++ padding n) ≡ some bs
unfolding base64_decode
base64_decode-encode bs n h = rw (trim_end-encode bs n h) (decode_all-encode bs [] h)
