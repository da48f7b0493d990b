-- ===== src/Database/Requests.antt =====
-- src/database/request_context.rs, the global table of contexts and the functions on it.
-- A context is shared by `Arc`: the table and the sessions hold references into `heap`. The shrinking
-- of the table's capacity changes no entry and is left out.
mod Sessions
mod Forgetting
mod Tests
use hypern.Prelude.{
  ℕ, ◌+◌, String, Option, none, some, List, [], ◌∷◌, if◌then◌else◌, or_default, is_empty, string_eq,
  nat_eq,
}
use hypern.Prelude.Map
use hypern.Prelude.Map.{Map}
use hypern.Database.Postgres.{Postgres, Result, ok, err}
use hypern.Database.Context.{DatabaseContextInner, Outcome, new, finalize}

-- REQUEST_CONTEXTS: request id, then alias, to the context's reference.
abbrev pub Contexts : Type 0
Contexts = Map String (Map String ℕ)

abbrev pub find : String → String → Contexts → Option ℕ
find request_id alias contexts = elim (Map.lookup request_id contexts) [
  | none ↦ none
  | some aliases ↦ Map.lookup alias aliases
]

-- The removal at the end of `finalize`.
unfoldable pub forget : String → String → Contexts → Contexts
forget request_id alias contexts = elim (Map.lookup request_id contexts) [
  | none ↦ contexts
  | some aliases ↦
      let rest = Map.remove alias aliases in
      if is_empty rest then Map.remove request_id contexts else Map.insert request_id rest contexts
]

module _ (pg : Postgres) where
  pub record Requests : Type 0 where
    pub heap : Map ℕ (DatabaseContextInner pg)
    pub next : ℕ
    pub contexts : Contexts

  unfoldable pub create_request_context : String → String → Requests → Requests × ℕ
  create_request_context request_id alias r =
      let aliases = or_default [] (Map.lookup request_id r.contexts) in
      (
        record {
          heap = Map.insert r.next (new pg request_id alias) r.heap;
          next = r.next + 1;
          contexts = Map.insert request_id (Map.insert alias r.next aliases) r.contexts;
        },
        r.next,
      )

  abbrev pub get_request_context : String → String → Requests → Option ℕ
  get_request_context request_id alias r = find request_id alias r.contexts

  unfoldable pub get_db : String → String → Requests → Requests × ℕ
  unfolding create_request_context
  get_db request_id alias r = elim (get_request_context request_id alias r) [
    | some ctx ↦ (r, ctx)
    | none ↦ create_request_context request_id alias r
  ]

  -- The end of `finalize`, with the context written back: the table forgets it after a success.
  abbrev pub settle_table : ℕ → Requests → Outcome pg Unit → (Requests × pg.World) × Result Unit
  settle_table ref r ((ctx, w), ok tt) = (
    (
      record r {
        heap = Map.insert ref ctx r.heap;
        contexts = forget ctx.request_id ctx.alias r.contexts;
      },
      w,
    ),
    ok tt,
  )
  settle_table ref r ((ctx, w), err e) = ((record r { heap = Map.insert ref ctx r.heap }, w), err e)

  -- `ctx.finalize().await` on a reference.
  unfoldable pub finalize_context : ℕ → Requests → pg.World → (Requests × pg.World) × Result Unit
  finalize_context ref r w = elim (Map.lookup ref r.heap) [
    | none ↦ ((r, w), ok tt)
    | some ctx ↦ settle_table ref r (finalize pg ctx w)
  ]

  unfoldable pub finalize_request_context :
      String → String → Requests → pg.World → (Requests × pg.World) × Result Unit
  unfolding finalize_context
  finalize_request_context request_id alias r w = elim (get_request_context request_id alias r) [
    | none ↦ ((r, w), ok tt)
    | some ref ↦ finalize_context ref r w
  ]

  -- The loop of `finalize_all_request_contexts`: the first failure ends it.
  unfoldable pub finalize_each : List ℕ → Requests → pg.World → (Requests × pg.World) × Result Unit
  unfolding finalize_context
  finalize_each [] r w = ((r, w), ok tt)
  finalize_each (ref ∷ refs) r w =
      let ((r', w'), result) = finalize_context ref r w in
      let rest = finalize_each refs r' w' in elim result [ ok u ↦ rest | err e ↦ ((r', w'), err e) ]

  unfoldable pub finalize_all_request_contexts :
      String → Requests → pg.World → (Requests × pg.World) × Result Unit
  unfolding finalize_each
  finalize_all_request_contexts request_id r w =
      finalize_each (Map.values (or_default [] (Map.lookup request_id r.contexts))) r w
