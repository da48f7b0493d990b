-- ===== src/Middleware/RateLimit/Windows.antt =====
-- How many requests of one client the window algorithms let through.
use hypern.Prelude.{
  ℕ, ◌+◌, ◌-◌, ◌*◌, ◌/◌, ◌≤◌, ◌<◌, min, ◌≡◌, refl, ap, ◌∙◌, inl, inr, Bool, true, List, [], ◌∷◌,
  arith, leb, if◌then◌else◌, Bool-cases, length,
}
use hypern.Middleware.RateLimit.{
  Floats, RateLimitConfig, RateLimitState, weighted_count, check_fixed_window, check_sliding_window,
  one_less,
}

-- How many requests at these times a check lets through, one after the other.
abbrev pub granted {ℓ} : {S : Type ℓ} → (ℕ → S → S × (Bool × ℕ)) → List ℕ → S → ℕ
granted step [] s = 0
granted step (t ∷ ts) s = (if (step t s).1.0 then 1 else 0) + granted step ts (step t s).0

-- Every time is from `lo` on and before `hi`.
abbrev pub AllIn : ℕ → ℕ → List ℕ → Type 0
AllIn lo hi [] = Unit
AllIn lo hi (t ∷ ts) = ((lo ≤ t) × (t < hi)) × AllIn lo hi ts

module _ (fl : Floats) (config : RateLimitConfig fl) where
  fixed-within :
      (now : ℕ) (s : RateLimitState fl)
      → now - s.window_start < config.window
      → check_fixed_window fl config now s ≡ (
        record s { count = s.count + 1 },
        (leb (s.count + 1) config.max_requests, config.max_requests - (s.count + 1)),
      )
  unfolding check_fixed_window
  fixed-within now s h = ground arith

  fixed-expired :
      (now : ℕ) (s : RateLimitState fl)
      → config.window ≤ now - s.window_start
      → check_fixed_window fl config now s
        ≡ (record s { window_start = now; count = 1 }, (true, one_less fl config.max_requests))
  unfolding check_fixed_window
  fixed-expired now s h = ground arith

  -- While its window lasts, a client gets exactly what is left of its budget: of the requests that
  -- arrive before the window's end, as many are let through as there are or as the budget has left,
  -- whichever is less. (`lo` is a time no later than the window's start, and the requests arrive
  -- from `lo` on and before `lo + window`.)
  pub granted-fixed_window :
      (lo : ℕ) (ts : List ℕ) (s : RateLimitState fl)
      → lo ≤ s.window_start
      → AllIn lo (lo + config.window) ts
      → granted (check_fixed_window fl config) ts s
        ≡ min (length ts) (config.max_requests - s.count)
  granted-fixed_window lo [] s h a = omega arith
  granted-fixed_window lo (t ∷ ts) s h a =
      let here = fixed-within t s (omega arith) in
      ap (λ o. (if o.1.0 then 1 else 0) + granted (check_fixed_window fl config) ts o.0) here
      ∙ ap (λ n. (if leb (s.count + 1) config.max_requests then 1 else 0) + n)
          (granted-fixed_window lo ts (record s { count = s.count + 1 }) h a.1)
      ∙ ground arith

  -- In any stretch of time as long as the window, wherever the window's borders fall, a client gets
  -- at most what is left of its budget and one more budget, when the budget is at least one request.
  pub granted-fixed_window-le :
      (lo : ℕ) (ts : List ℕ) (s : RateLimitState fl)
      → 1 ≤ config.max_requests
      → AllIn lo (lo + config.window) ts
      → granted (check_fixed_window fl config) ts s
        ≤ (config.max_requests - s.count) + config.max_requests
  granted-fixed_window-le lo [] s h a = omega arith
  granted-fixed_window-le lo (t ∷ ts) s h a =
      elim (Bool-cases (leb config.window (t - s.window_start))) [
        | inl expired ↦
            let here = fixed-expired t s (ground arith) in
            let rest =
              granted-fixed_window lo ts (record s { window_start = t; count = 1 }) a.0.0 a.1 in
            let all =
              ap (λ o. (if o.1.0 then 1 else 0) + granted (check_fixed_window fl config) ts o.0)
                here in
            omega (arith, all, rest)
        | inr within ↦
            let here = fixed-within t s (ground arith) in
            let rest = granted-fixed_window-le lo ts (record s { count = s.count + 1 }) h a.1 in
            let all =
              ap (λ o. (if o.1.0 then 1 else 0) + granted (check_fixed_window fl config) ts o.0)
                here in
            ground (arith, all, rest)
      ]

  -- What `f64` gives in the second half of a window: at most half of a count within the budget.
  abbrev pub Halves : Type 0
  Halves =
      (count elapsed : ℕ)
      → count ≤ config.max_requests
      → elapsed < config.window
      → config.window ≤ 2 * elapsed
      → 2 * weighted_count fl count elapsed config.window ≤ count

  sliding-within :
      (now : ℕ) (s : RateLimitState fl)
      → now - s.window_start < config.window
      → weighted_count fl s.count (now - s.window_start) config.window + 1 ≤ config.max_requests
      → ((check_sliding_window fl config now s).0
          ≡ record s { count = weighted_count fl s.count (now - s.window_start) config.window + 1 })
        × ((check_sliding_window fl config now s).1.0 ≡ true)
  unfolding check_sliding_window
  sliding-within now s h k = ground arith

  -- The sliding window as it is: once the first half of a window has passed, every request until the
  -- window's end is let through, however many there are, for any budget of at least one request.
  pub granted-sliding_window :
      (ts : List ℕ) (s : RateLimitState fl)
      → Halves
      → 1 ≤ config.max_requests
      → s.count ≤ config.max_requests
      → AllIn (s.window_start + (config.window + 1) / 2) (s.window_start + config.window) ts
      → granted (check_sliding_window fl config) ts s ≡ length ts
  granted-sliding_window [] s v h c a = refl
  granted-sliding_window (t ∷ ts) s v h c a =
      let next = weighted_count fl s.count (t - s.window_start) config.window + 1 in
      let half = v s.count (t - s.window_start) c (omega arith) (omega arith) in
      let here = sliding-within t s (omega arith) (omega (arith, half)) in
      let rest =
        granted-sliding_window ts (record s { count = next }) v h (omega (arith, half)) a.1 in
      ap
        (λ b.
          (if b then 1 else 0)
          + granted (check_sliding_window fl config) ts (check_sliding_window fl config t s).0)
        here.1
      ∙ ap (λ z. 1 + granted (check_sliding_window fl config) ts z) here.0
      ∙ omega (arith, rest)
