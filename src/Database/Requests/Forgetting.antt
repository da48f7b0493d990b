-- ===== src/Database/Requests/Forgetting.antt =====
-- What a finalized context leaves in the table.
use Prim.Native.String
use hypern.Prelude.{
  ℕ, String, ◌≡◌, refl, sym, ap, ◌∙◌, subst, inl, inr, false, ◌&&◌, none, some, [], arith,
  if◌then◌else◌, if-both, Option-cases, ◌==◌, string_eq, nat_eq,
}
use hypern.Prelude.Map
use hypern.Prelude.Map.{Map}
use hypern.Database.Postgres.{Postgres, ok, err, Answer, done, failed}
use hypern.Database.Context.{
  ContextState, committed, rolled_back, DatabaseContextInner, Outcome, and_then, settle, send,
  commit, rollback, end_transaction, release, finalize,
}
use hypern.Database.Context.Finalizing.{with_connection-some, with_connection-none}
use hypern.Database.Requests.{
  find, Requests, get_request_context, settle_table, finalize_context, finalize_request_context,
}
use hypern.Database.Requests.Sessions.{is_ok, settle_table-find}

module _ (pg : Postgres) (ctx : DatabaseContextInner pg) where
  -- The names of the context, kept.
  abbrev Named : Outcome pg Unit → Type 0
  Named o = (o.0.0.request_id ≡ ctx.request_id) × (o.0.0.alias ≡ ctx.alias)

  settle-Named :
      (s : ContextState) (message : pg.Error → String) (o : pg.World × Answer pg.Error ℕ)
      → Named
          (settle pg message (λ _. tt) (λ c. record c { in_transaction = false; state = s }) ctx o)
  settle-Named s message (w, done a) = (refl, refl)
  settle-Named s message (w, failed e) = (refl, refl)

  send-Named :
      (sql message : String) (s : ContextState) (w : pg.World)
      → Named (send pg sql message (λ c. record c { in_transaction = false; state = s }) ctx w)
  send-Named sql message s w =
      let call = λ (conn : pg.Object).
        settle pg (λ e. String.◌++◌ message (pg.display e)) (λ _. tt)
          (λ c. record c { in_transaction = false; state = s }) ctx (pg.execute sql [] conn w) in
      elim (Option-cases ctx.connection) [
        | inl none' ↦ subst Named (sym (with_connection-none pg call ctx w none')) (refl, refl)
        | inr (conn, some') ↦
            subst Named (sym (with_connection-some pg call ctx w conn some'))
              (settle-Named s (λ e. String.◌++◌ message (pg.display e)) (pg.execute sql [] conn w))
      ]

  end_transaction-Named : (w : pg.World) → Named (end_transaction pg ctx w)
  unfolding end_transaction commit rollback
  end_transaction-Named w =
      let committing =
        if-both Named ctx.in_transaction
          (send-Named "COMMIT" "Failed to commit transaction: " committed w) (refl, refl) in
      let rolling =
        if-both Named ctx.in_transaction
          (send-Named "ROLLBACK" "Failed to rollback transaction: " rolled_back w) (refl, refl) in
      if-both Named ctx.in_transaction
        (if-both Named ctx.has_error rolling (if-both Named ctx.auto_commit committing rolling))
        (refl, refl)

  and_then-release-Named :
      (o : Outcome pg Unit) → Named o → Named (and_then pg o (λ _ c v. (release pg c v, ok tt)))
  and_then-release-Named ((c, v), ok tt) h = h
  and_then-release-Named ((c, v), err e) h = h

  finalize-Named : (w : pg.World) → Named (finalize pg ctx w)
  unfolding finalize
  finalize-Named w = and_then-release-Named (end_transaction pg ctx w) (end_transaction-Named w)

module _ (pg : Postgres) where
  settle_table-result :
      (ref : ℕ) (r : Requests pg) (o : Outcome pg Unit) → (settle_table pg ref r o).1 ≡ o.1
  settle_table-result ref r ((ctx, w), ok tt) = refl
  settle_table-result ref r ((ctx, w), err e) = refl

  -- Finalizing the context of a request id and alias, where the table leads to a context that has
  -- these names: after a success the pair leads nowhere, after a failure it leads to the same context
  -- as before, and every other pair is as it was.
  pub get_request_context-finalize :
      (id alias id' alias' : String) (r : Requests pg) (w : pg.World) (ref : ℕ)
      (ctx : DatabaseContextInner pg)
      → get_request_context pg id alias r ≡ some ref
      → Map.lookup ref r.heap ≡ some ctx
      → ctx.request_id ≡ id
      → ctx.alias ≡ alias
      → let o = finalize_request_context pg id alias r w in
        get_request_context pg id' alias' o.0.0 ≡ (
          if is_ok o.1 && (id == id' && alias == alias')
          then none
          else get_request_context pg id' alias' r)
  unfolding finalize_request_context finalize_context
  get_request_context-finalize id alias id' alias' r w ref ctx found stored named named' =
      let o = finalize pg ctx w in
      let names = finalize-Named pg ctx w in
      let same : finalize_request_context pg id alias r w ≡ settle_table pg ref r o =
        ground (arith, found, stored) in
      ap (λ z. find id' alias' z.0.0.contexts) same
      ∙ settle_table-find pg ref r o id' alias'
      ∙ ap
          (λ b.
            if b && (o.0.0.request_id == id' && o.0.0.alias == alias')
            then none
            else find id' alias' r.contexts)
          (ap is_ok (sym (settle_table-result ref r o) ∙ ap (λ z. z.1) (sym same)))
      ∙ ap
          (λ z.
            if is_ok (finalize_request_context pg id alias r w).1
              && (z == id' && o.0.0.alias == alias')
            then none
            else find id' alias' r.contexts)
          (names.0 ∙ named)
      ∙ ap
          (λ z.
            if is_ok (finalize_request_context pg id alias r w).1 && (id == id' && z == alias')
            then none
            else find id' alias' r.contexts)
          (names.1 ∙ named')
