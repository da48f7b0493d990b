-- ===== src/Realtime/Broadcast/Dedup.antt =====
-- Deduplication of message ids, and what a call of `send` counts.
use mathlib.Core.Option
use hypern.Prelude.{
  ℕ, zero, suc, ◌+◌, ◌-◌, ◌≤◌, String, ◌≡◌, refl, ap, ◌∙◌, subst, inl, inr, true, false, Option,
  none, some, List, [], ◌∷◌, ◌++◌, arith, eq_iff, eq_refl, if◌then◌else◌, Bool-cases, Option-cases,
  ◌==◌, length, drop, length-append, length-drop, elem, elem-append, string_eq, nat_eq,
}
use hypern.Prelude.Map
use hypern.Prelude.Map.{Map, lookup-modify}
use hypern.Realtime.Tokio.{Tokio}
use hypern.Realtime.Broadcast.{
  BroadcastInner, RealtimeBroadcast, delivered, remember, send, send_on,
}

abbrev pub IsUnique : List String → Type 0
IsUnique [] = Unit
IsUnique (x ∷ xs) = (elem x xs ≡ false) × IsUnique xs

append-IsUnique :
    (xs : List String) (a : String) → IsUnique xs → elem a xs ≡ false → IsUnique (xs ++ a ∷ [])
append-IsUnique [] a u h = (refl, tt)
append-IsUnique (x ∷ xs) a u h =
    ground (arith, append-IsUnique xs a u.1, elem-append x xs (a ∷ []), eq_iff x a, eq_iff a x)

drop-IsUnique : (n : ℕ) (xs : List String) → IsUnique xs → IsUnique (drop n xs)
drop-IsUnique zero xs u = u
drop-IsUnique (suc n) [] u = tt
drop-IsUnique (suc n) (x ∷ xs) u = drop-IsUnique n xs u.1

elem-drop_last :
    (n : ℕ) (xs : List String) (a : String) → n ≤ length xs → elem a (drop n (xs ++ a ∷ [])) ≡ true
elem-drop_last zero xs a h = rw elem-append (ground (arith, eq_refl a))
elem-drop_last (suc n) [] a h = absurd (omega arith)
elem-drop_last (suc n) (x ∷ xs) a h = elem-drop_last n xs a (omega arith)

length-remember : (w : ℕ) (a : String) (xs : List String) → length (remember w a xs) ≤ w
length-remember w a xs = ground (arith, length-drop (length (xs ++ a ∷ []) - w) (xs ++ a ∷ []))

remember-IsUnique :
    (w : ℕ) (a : String) (xs : List String)
    → IsUnique xs
    → elem a xs ≡ false
    → IsUnique (remember w a xs)
remember-IsUnique w a xs u h =
    ground
      (arith, append-IsUnique xs a u h, drop-IsUnique (length (xs ++ a ∷ []) - w) (xs ++ a ∷ []))

elem-remember : (w : ℕ) (a : String) (xs : List String) → 1 ≤ w → elem a (remember w a xs) ≡ true
elem-remember w a xs h = ground (
  arith,
  length-append xs (a ∷ []),
  elem-append a xs (a ∷ []),
  eq_refl a,
  elem-drop_last (length (xs ++ a ∷ []) - w) xs a,
)

-- The ids that a channel remembers: no more than its window, none twice.
pub record IsWindowed {Chan : Type 0} (c : BroadcastInner Chan) : Type 0 where
  pub bounded : length c.recent_ids ≤ c.config.dedup_window
  pub unique : IsUnique c.recent_ids

module _ (T : Tokio) where
  open T use {Chan}

  send_on-IsWindowed :
      (message : String) (id : Option String) (c : BroadcastInner Chan)
      → IsWindowed c
      → IsWindowed (send_on T message id c).0
  unfolding send_on
  send_on-IsWindowed message none c v = ground arith
  send_on-IsWindowed message (some id) c v = ground (
    arith,
    length-remember c.config.dedup_window id c.recent_ids,
    remember-IsUnique c.config.dedup_window id c.recent_ids v.unique,
  )

  -- After a send every channel is the same, but the one that was named.
  pub lookup-send :
      (name message : String) (id : Option String) (b : RealtimeBroadcast Chan) (j : String)
      → Map.lookup j (send T name message id b).0 ≡ (
          if name == j
          then Option.map (λ c. (send_on T message id c).0) (Map.lookup j b)
          else Map.lookup j b)
  unfolding send
  lookup-send name message id b j = elim (Option-cases (Map.lookup name b)) [
    | inl e ↦ ground (arith, eq_iff name j, e)
    | inr (c, e) ↦
        rw (e, send)
          (ground
            (arith, eq_iff name j, e, lookup-modify name j (λ _. (send_on T message id c).0) b))
  ]

  -- A send, to the same or another channel, keeps a channel's memory of ids within its window and free
  -- of repetitions, where it was so before.
  pub send-IsWindowed :
      (name message : String) (id : Option String) (b : RealtimeBroadcast Chan) (j : String)
      (c c' : BroadcastInner Chan)
      → Map.lookup j b ≡ some c
      → IsWindowed c
      → Map.lookup j (send T name message id b).0 ≡ some c'
      → IsWindowed c'
  send-IsWindowed name message id b j c c' e v e' = elim (Bool-cases (name == j)) [
    | inl same ↦
        subst IsWindowed (ground (arith, lookup-send name message id b j))
          (send_on-IsWindowed message id c v)
    | inr other ↦ subst IsWindowed (ground (arith, lookup-send name message id b j)) v
  ]

  -- What one send counts on a channel: a message that was sent or one that was dropped as a duplicate.
  send_on-counts :
      (message : String) (id : Option String) (c : BroadcastInner Chan)
      → let c' = (send_on T message id c).0 in
        (c'.total_sent + c'.total_deduped ≡ c.total_sent + c.total_deduped + 1)
        × (c'.total_dropped + c.total_sent ≤ c.total_dropped + c'.total_sent)
        × (c'.config ≡ c.config)
        × (c'.subscriber_count ≡ c.subscriber_count)
  unfolding send_on
  send_on-counts message none c = (ground arith, ground arith, ground arith, ground arith)
  send_on-counts message (some id) c = (ground arith, ground arith, ground arith, ground arith)

  -- A send that finds its channel counts the message exactly once, as sent or as a duplicate, and
  -- never more drops than messages sent; the configuration and the subscriber count stay.
  pub send-counts :
      (name message : String) (id : Option String) (b : RealtimeBroadcast Chan)
      (c : BroadcastInner Chan)
      → Map.lookup name b ≡ some c
      → (c' : BroadcastInner Chan) × (Map.lookup name (send T name message id b).0 ≡ some c')
        × (c'.total_sent + c'.total_deduped ≡ c.total_sent + c.total_deduped + 1)
        × (c'.total_dropped + c.total_sent ≤ c.total_dropped + c'.total_sent)
        × (c'.config ≡ c.config)
        × (c'.subscriber_count ≡ c.subscriber_count)
  send-counts name message id b c e =
      let (sum, dropped, cfg, subs) = send_on-counts message id c in
      (
        (send_on T message id c).0,
        ground (arith, lookup-send name message id b name, eq_refl name),
        sum,
        dropped,
        cfg,
        subs,
      )

  send_on_twice :
      (m₁ m₂ id : String) (c : BroadcastInner Chan)
      → c.config.dedup_enabled ≡ true
      → 1 ≤ c.config.dedup_window
      → let c₁ = (send_on T m₁ (some id) c).0 in
        send_on T m₂ (some id) c₁
        ≡ (record c₁ { total_deduped = c₁.total_deduped + 1 }, delivered 0)
  unfolding send_on
  send_on_twice m₁ m₂ id c h w = ground (arith, elem-remember c.config.dedup_window id c.recent_ids)

  result-send :
      (name message : String) (id : Option String) (b : RealtimeBroadcast Chan)
      (c : BroadcastInner Chan)
      → Map.lookup name b ≡ some c
      → (send T name message id b).1 ≡ (send_on T message id c).1
  unfolding send
  result-send name message id b c e = rw (e, send)

  abbrev pub counted_duplicate : BroadcastInner Chan → BroadcastInner Chan
  counted_duplicate c = record c { total_deduped = c.total_deduped + 1 }

  -- On a channel that deduplicates with a window of at least 1, an id that was sent is not sent again
  -- by the next call, whatever the first call returned, so also if it raised for want of a
  -- subscriber: the second call returns 0 and only counts a duplicate.
  pub send_twice :
      (name m₁ m₂ id : String) (b : RealtimeBroadcast Chan) (c : BroadcastInner Chan)
      → Map.lookup name b ≡ some c
      → c.config.dedup_enabled ≡ true
      → 1 ≤ c.config.dedup_window
      → let b₁ = (send T name m₁ (some id) b).0 in
        ((send T name m₂ (some id) b₁).1 ≡ delivered 0)
        × (Map.lookup name (send T name m₂ (some id) b₁).0
            ≡ Option.map counted_duplicate (Map.lookup name b₁))
  send_twice name m₁ m₂ id b c e h w =
      let c₁ = (send_on T m₁ (some id) c).0 in
      let b₁ = (send T name m₁ (some id) b).0 in
      let e₁ : Map.lookup name b₁ ≡ some c₁ =
        ground (arith, lookup-send name m₁ (some id) b name, eq_refl name) in
      (
        result-send name m₂ (some id) b₁ c₁ e₁ ∙ ap (λ r. r.1) (send_on_twice m₁ m₂ id c h w),
        ground (
          arith,
          e₁,
          lookup-send name m₂ (some id) b₁ name,
          eq_refl name,
          send_on_twice m₁ m₂ id c h w,
        ),
      )
