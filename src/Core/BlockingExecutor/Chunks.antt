-- ===== src/Core/BlockingExecutor/Chunks.antt =====
-- The chunks of `map` and their outcomes against one pass over the list.
use hypern.Core.BlockingExecutor.{
  returned, room, BlockingExecutor, WorkResult, ok, err, get_slice, chunk_of, chunks_from, joined,
  run_chunk, collect, map_chunked,
}
use hypern.Prelude.{
  ℕ, zero, suc, ◌+◌, ◌-◌, ◌*◌, ◌/◌, ◌≤◌, ◌<◌, min, ◌≡◌, refl, sym, ap, ◌∙◌, ◌⊎◌, inl, inr, true,
  ◌||◌, List, [], ◌∷◌, ◌++◌, append_assoc, arith, ltb, leb, eqb, if◌then◌else◌, Bool-cases, length,
  drop, take-append-drop,
}

module _ {ℓ} {A : Type ℓ} where
  abbrev pub concat : List (List A) → List A
  concat [] = []
  concat (xs ∷ xss) = xs ++ concat xss

  drop-nil : (n : ℕ) → drop {A = A} n [] ≡ []
  drop-nil zero = refl
  drop-nil (suc n) = refl

  drop-drop : (m n k : ℕ) (xs : List A) → k ≡ n + m → drop m (drop n xs) ≡ drop k xs
  drop-drop m n k [] h = ap (drop m) (drop-nil n) ∙ drop-nil m ∙ sym (drop-nil k)
  drop-drop m zero k (x ∷ xs) h =
      let same : m ≡ k = omega (arith, h) in ap (λ j. drop j (x ∷ xs)) same
  drop-drop m (suc n) zero (x ∷ xs) h = absurd (omega (arith, h))
  drop-drop m (suc n) (suc k) (x ∷ xs) h = drop-drop m n k xs (omega (arith, h))

  drop-all : (n : ℕ) (xs : List A) → length xs ≤ n → drop n xs ≡ []
  drop-all zero [] h = refl
  drop-all zero (x ∷ xs) h = absurd (omega (arith, h))
  drop-all (suc n) [] h = refl
  drop-all (suc n) (x ∷ xs) h = drop-all n xs (omega (arith, h))

  -- With as much fuel as there are items left, the chunks are the items from the start on.
  concat-chunks_from :
      (fuel chunk start : ℕ) (items : List A)
      → 0 < chunk
      → length items ≤ start + fuel
      → concat (chunks_from fuel chunk start items) ≡ drop start items
  unfolding chunks_from
  concat-chunks_from zero chunk start items pos h = sym (drop-all start items (omega (arith, h)))
  concat-chunks_from (suc fuel) chunk start items pos h =
      elim (Bool-cases (ltb start (length items))) [
        | inr e ↦ rw (e, chunks_from) (sym (drop-all start items (ground (arith, e))))
        | inl e ↦
            let less : start < length items = ground (arith, e) in
            let stop = min (start + chunk) (length items) in
            let rest : concat (chunks_from fuel chunk stop items)
                ≡ drop (stop - start) (drop start items) =
              concat-chunks_from fuel chunk stop items pos (omega (arith, less, h, pos))
              ∙ sym (drop-drop (stop - start) start stop items (omega (arith, less))) in
            rw (e, chunks_from)
              (ap (λ xs. get_slice start stop items ++ xs) rest
                ∙ take-append-drop (stop - start) (drop start items))
      ]

  -- There are no more chunks than it takes to cover the items that are left.
  length-chunks_from :
      (fuel chunk start k : ℕ) (items : List A)
      → length items ≤ start + k * chunk
      → length (chunks_from fuel chunk start items) ≤ k
  unfolding chunks_from
  length-chunks_from zero chunk start k items h = omega arith
  length-chunks_from (suc fuel) chunk start k items h =
      elim (Bool-cases (ltb start (length items))) [
        | inr e ↦ rw (e, chunks_from) (omega arith)
        | inl e ↦
            let less : start < length items = ground (arith, e) in
            rw (e, chunks_from)
              (one_more (λ j g. length-chunks_from fuel chunk stop j items g) k h less)
      ]
    where
      stop : ℕ
      stop = min (start + chunk) (length items)

      one_more :
          ((j : ℕ)
            → length items ≤ stop + j * chunk
            → length (chunks_from fuel chunk stop items) ≤ j)
          → (j : ℕ) → length items ≤ start + j * chunk
          → start < length items
          → suc (length (chunks_from fuel chunk stop items)) ≤ j
      one_more fewer zero g less = absurd (omega (arith, g, less))
      one_more fewer (suc j) g less =
          let rest : length items ≤ stop + j * chunk = grind (arith, g, less) in
          omega (arith, fewer j rest)

module _ {ℓ κ} {A : Type ℓ} {B : Type κ} (callable : A → WorkResult B) where
  joined_assoc : (p q r : WorkResult (List B)) → joined p (joined q r) ≡ joined (joined p q) r
  joined_assoc (err m) q r = refl
  joined_assoc (ok xs) (err m) r = refl
  joined_assoc (ok xs) (ok ys) (err m) = refl
  joined_assoc (ok xs) (ok ys) (ok zs) = ap ok (sym (append_assoc xs ys zs))

  joined-nil : (r : WorkResult (List B)) → r ≡ joined (ok []) r
  joined-nil (ok zs) = refl
  joined-nil (err m) = refl

  run_chunk-append :
      (xs ys : List A)
      → run_chunk callable (xs ++ ys) ≡ joined (run_chunk callable xs) (run_chunk callable ys)
  unfolding run_chunk
  run_chunk-append [] ys = joined-nil (run_chunk callable ys)
  run_chunk-append (x ∷ xs) ys = go (run_chunk-append xs ys) (callable x)
    where
      -- With the answer to the first item.
      with_first : WorkResult B → List A → WorkResult (List B)
      with_first r zs = elim r [
        | err m ↦ err m
        | ok y ↦ joined (ok (y ∷ [])) (run_chunk callable zs)
      ]

      go :
          (run_chunk callable (xs ++ ys) ≡ joined (run_chunk callable xs) (run_chunk callable ys))
          → (r : WorkResult B)
          → with_first r (xs ++ ys) ≡ joined (with_first r xs) (run_chunk callable ys)
      go h (err m) = refl
      go h (ok y) =
          ap (joined (ok (y ∷ []))) h
          ∙ joined_assoc (ok (y ∷ [])) (run_chunk callable xs) (run_chunk callable ys)

  collect-concat : (xss : List (List A)) → collect callable xss ≡ run_chunk callable (concat xss)
  unfolding collect run_chunk
  collect-concat [] = refl
  collect-concat (xs ∷ xss) =
      ap (joined (run_chunk callable xs)) (collect-concat xss)
      ∙ sym (run_chunk-append xs (concat xss))

  -- A running executor whose channel is unbounded, or has room for the chunks that cover the items,
  -- returns from `map`, however many threads there are and whatever size of a chunk is asked for. It
  -- gives what one pass over the list gives: every result in the items' order, or the error of the
  -- first item that fails.
  pub map_chunked_lem :
      (e : BlockingExecutor) (chunk_size : ℕ) (items : List A)
      → e.running ≡ true
      → (e.queue_size ≡ 0)
        ⊎ (length items ≤ room e * chunk_of e.max_threads chunk_size (length items))
      → map_chunked callable e chunk_size items ≡ returned (run_chunk callable items)
  unfolding map_chunked
  map_chunked_lem e chunk_size [] up free = rw (up, map_chunked) (unfold run_chunk in refl)
  map_chunked_lem e chunk_size (x ∷ xs) up free =
      rw (up, fits free, map_chunked) (ap returned one_pass)
    where
      items : List A
      items = x ∷ xs

      chunk : ℕ
      chunk = chunk_of e.max_threads chunk_size (length items)

      chunks : List (List A)
      chunks = chunks_from (length items) chunk 0 items

      fits :
          (e.queue_size ≡ 0) ⊎ (length items ≤ room e * chunk)
          → (eqb e.queue_size 0 || leb (length chunks) (room e)) ≡ true
      fits (inl none') = ground (arith, none')
      fits (inr le) =
          let few : length chunks ≤ room e =
            length-chunks_from (length items) chunk 0 (room e) items (omega (arith, le)) in
          ground (arith, few)

      at_least_one : (n : ℕ) → 0 < (if ltb n 1 then 1 else n)
      at_least_one n = ground arith

      one_pass : collect callable chunks ≡ run_chunk callable items
      one_pass =
          let chosen =
            if ltb 0 chunk_size
            then chunk_size
            else (length items + e.max_threads * 4 - 1) / (e.max_threads * 4) in
          collect-concat chunks
          ∙ ap (run_chunk callable)
              (concat-chunks_from (length items) chunk 0 items (at_least_one chosen) (omega arith))
