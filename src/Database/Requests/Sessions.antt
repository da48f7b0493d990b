-- ===== src/Database/Requests/Sessions.antt =====
-- Which context a session gets: one for each request id and alias, until it is finalized.
use hypern.Prelude.{
  ℕ, String, ◌≡◌, refl, sym, ap, ◌∙◌, inl, inr, Bool, true, false, ◌&&◌, Option, none, some, [],
  ◌∷◌, arith, eq_iff, if◌then◌else◌, Option-cases, ◌==◌, or_default, is_empty, string_eq, nat_eq,
}
use hypern.Prelude.Map
use hypern.Prelude.Map.{Map}
use hypern.Database.Postgres.{Postgres, Result, ok, err}
use hypern.Database.Context.{Outcome}
use hypern.Database.Requests.{
  Contexts, find, forget, Requests, create_request_context, get_request_context, get_db,
  settle_table,
}

abbrev pub is_ok : Result Unit → Bool
is_ok (ok u) = true
is_ok (err e) = false

empty_lookup : (k : String) (m : Map String ℕ) → is_empty m ≡ true → Map.lookup k m ≡ none
unfolding Map.lookup
empty_lookup k [] h = refl
empty_lookup k (x ∷ m) h = ground arith

find-insert :
    (id id' alias' : String) (m : Map String ℕ) (t : Contexts)
    → find id' alias' (Map.insert id m t)
      ≡ (if id == id' then Map.lookup alias' m else find id' alias' t)
find-insert id id' alias' m t = ground (arith, Map.lookup-insert id id' m t)

find-remove :
    (id id' alias' : String) (t : Contexts)
    → find id' alias' (Map.remove id t) ≡ (if id == id' then none else find id' alias' t)
find-remove id id' alias' t = ground (arith, Map.lookup-remove id id' t)

find-at :
    (id id' alias' : String) (t : Contexts) (o : Option (Map String ℕ))
    → Map.lookup id t ≡ o
    → id == id' ≡ true
    → find id' alias' t ≡ elim o [ none ↦ none | some m ↦ Map.lookup alias' m ]
find-at id id' alias' t o h same =
    ap (λ k. find k alias' t) (sym ((eq_iff id id').0 same))
    ∙ ap (λ o. elim o [ none ↦ none | some m ↦ Map.lookup alias' m ]) h

find-forget :
    (id alias id' alias' : String) (t : Contexts)
    → find id' alias' (forget id alias t)
      ≡ (if id == id' && alias == alias' then none else find id' alias' t)
unfolding forget
find-forget id alias id' alias' t = elim (Option-cases (Map.lookup id t)) [
  | inl none' ↦ ground (arith, none', find-at id id' alias' t none none')
  | inr (m, some') ↦ ground (
    arith,
    some',
    find-at id id' alias' t (some m) some',
    find-insert id id' alias' (Map.remove alias m) t,
    find-remove id id' alias' t,
    Map.lookup-remove alias alias' m,
    empty_lookup alias' (Map.remove alias m),
  )
]

find-same :
    (id alias id' alias' : String) (t : Contexts)
    → id == id' ≡ true
    → alias == alias' ≡ true
    → find id' alias' t ≡ find id alias t
find-same id alias id' alias' t same same' =
    ap (λ k. find k alias' t) (sym ((eq_iff id id').0 same))
    ∙ ap (λ a. find id a t) (sym ((eq_iff alias alias').0 same'))

lookup-or_default :
    (id id' alias' : String) (t : Contexts)
    → id == id' ≡ true
    → Map.lookup alias' (or_default [] (Map.lookup id t)) ≡ find id' alias' t
unfolding Map.lookup
lookup-or_default id id' alias' t same = elim (Option-cases (Map.lookup id t)) [
  | inl none' ↦
      ap (λ o. Map.lookup alias' (or_default [] o)) none'
      ∙ sym (find-at id id' alias' t none none' same)
  | inr (m, some') ↦
      ap (λ o. Map.lookup alias' (or_default [] o)) some'
      ∙ sym (find-at id id' alias' t (some m) some' same)
]

module _ (pg : Postgres) where
  -- After `get_db`, its own request id and alias lead to the context that it returned, and every
  -- other pair to what it led to before.
  pub get_request_context-get_db :
      (id alias id' alias' : String) (r : Requests pg)
      → get_request_context pg id' alias' (get_db pg id alias r).0 ≡ (
          if id == id' && alias == alias'
          then some (get_db pg id alias r).1
          else get_request_context pg id' alias' r)
  unfolding get_db create_request_context
  get_request_context-get_db id alias id' alias' r =
      elim (Option-cases (find id alias r.contexts)) [
        | inr (ref, some') ↦ ground (arith, some', find-same id alias id' alias' r.contexts)
        | inl none' ↦
            let aliases = or_default [] (Map.lookup id r.contexts) in
            ground (
              arith,
              none',
              find-insert id id' alias' (Map.insert alias r.next aliases) r.contexts,
              Map.lookup-insert alias alias' r.next aliases,
              lookup-or_default id id' alias' r.contexts,
            )
      ]

  -- What `finalize` does to the table, by its result.
  pub settle_table-find :
      (ref : ℕ) (r : Requests pg) (o : Outcome pg Unit) (id alias : String)
      → find id alias (settle_table pg ref r o).0.0.contexts ≡ (
          if is_ok o.1 && (o.0.0.request_id == id && o.0.0.alias == alias)
          then none
          else find id alias r.contexts)
  settle_table-find ref r ((ctx, w), ok tt) id alias =
      find-forget ctx.request_id ctx.alias id alias r.contexts
  settle_table-find ref r ((ctx, w), err e) id alias = refl
