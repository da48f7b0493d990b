-- ===== src/Database/Context/Finalizing.antt =====
-- The end of a context: what `finalize` does to an active transaction, and that it leaves nothing
-- behind when it succeeds.
use Prim.Native.String
use hypern.Prelude.{
  ℕ, String, ◌≡◌, refl, sym, ap, ◌∙◌, subst, inl, inr, Bool, true, false, not, ◌&&◌, none, some,
  List, [], ◌∷◌, arith, if◌then◌else◌, if-both, if-split, Bool-cases, Option-cases,
}
use hypern.Prelude.Map.{Map}
use hypern.Database.Postgres.{Postgres, ok, err, Answer, done, failed}
use hypern.Database.Context.{
  ContextState, committed, rolled_back, closed, DatabaseContextInner, Outcome, new, and_then,
  settle, with_connection, send, commit, rollback, end_transaction, release, finalize,
}
use hypern.Database.Context.Transactions.{
  IsValid, LeavesValid, Call, begins, commits, rolls_back, finalizes, sets_error, sets_auto_commit,
  queries, executes, step, run, begin-IsValid, commit-IsValid, rollback-IsValid, query-IsValid,
  execute-IsValid, end_transaction-IsValid,
}

module _ (pg : Postgres) where
  -- No transaction is active after a success.
  abbrev Ended : Outcome pg Unit → Type 0
  Ended o = o.1 ≡ ok tt → o.0.0.in_transaction ≡ false

  settle-Ended :
      (message : pg.Error → String) (writes : DatabaseContextInner pg → DatabaseContextInner pg)
      (ctx : DatabaseContextInner pg) (o : pg.World × Answer pg.Error ℕ)
      → (writes ctx).in_transaction ≡ false
      → Ended (settle pg message (λ _. tt) writes ctx o)
  settle-Ended message writes ctx (w, done a) h r = h
  settle-Ended message writes ctx (w, failed e) h r = ground arith

  pub with_connection-some :
      {B : Type 0} (call : pg.Object → Outcome pg B) (ctx : DatabaseContextInner pg) (w : pg.World)
      (conn : pg.Object)
      → ctx.connection ≡ some conn
      → with_connection pg call ctx w ≡ call conn
  with_connection-some call ctx w conn h = ground (arith, h)

  pub with_connection-none :
      {B : Type 0} (call : pg.Object → Outcome pg B) (ctx : DatabaseContextInner pg) (w : pg.World)
      → ctx.connection ≡ none
      → with_connection pg call ctx w ≡ ((ctx, w), err "No connection available")
  with_connection-none call ctx w h = ground (arith, h)

  send-Ended :
      (sql message : String) (writes : DatabaseContextInner pg → DatabaseContextInner pg)
      (ctx : DatabaseContextInner pg) (w : pg.World)
      → (writes ctx).in_transaction ≡ false
      → Ended (send pg sql message writes ctx w)
  send-Ended sql message writes ctx w h =
      let call = λ (conn : pg.Object).
        settle pg (λ e. String.◌++◌ message (pg.display e)) (λ _. tt) writes ctx
          (pg.execute sql [] conn w) in
      elim (Option-cases ctx.connection) [
        | inl none' ↦ subst Ended (sym (with_connection-none call ctx w none')) (λ r. ground arith)
        | inr (conn, some') ↦ subst Ended (sym (with_connection-some call ctx w conn some')) (
            settle-Ended (λ e. String.◌++◌ message (pg.display e)) writes ctx
              (pg.execute sql [] conn w) h)
      ]

  end_transaction-Ended :
      (ctx : DatabaseContextInner pg) (w : pg.World) → Ended (end_transaction pg ctx w)
  unfolding end_transaction commit rollback
  end_transaction-Ended ctx w =
      let committing =
        send-Ended "COMMIT" "Failed to commit transaction: "
          (λ c. record c { in_transaction = false; state = committed }) ctx w refl in
      let rolling =
        send-Ended "ROLLBACK" "Failed to rollback transaction: "
          (λ c. record c { in_transaction = false; state = rolled_back }) ctx w refl in
      let rolled = if-split Ended ctx.in_transaction (λ _. rolling) (λ n r. n) in
      if-split Ended ctx.in_transaction
        (λ _. if-both Ended ctx.has_error rolled (
          if-both Ended ctx.auto_commit
            (if-split Ended ctx.in_transaction (λ _. committing) (λ n r. n)) rolled))
        (λ n r. n)

  and_then-release-IsValid :
      (o : Outcome pg Unit)
      → IsValid pg o.0.0
      → Ended o
      → LeavesValid pg (and_then pg o (λ _ c v. (release pg c v, ok tt)))
  and_then-release-IsValid ((c, v), ok tt) h e = (e refl, refl)
  and_then-release-IsValid ((c, v), err m) h e = h

  finalize-IsValid :
      (ctx : DatabaseContextInner pg) (w : pg.World)
      → IsValid pg ctx
      → LeavesValid pg (finalize pg ctx w)
  unfolding finalize
  finalize-IsValid ctx w h =
      and_then-release-IsValid (end_transaction pg ctx w) (end_transaction-IsValid pg ctx w h)
        (end_transaction-Ended ctx w)

  step-IsValid :
      (pools : Map String pg.Pool) (ctx : DatabaseContextInner pg) (w : pg.World) (c : Call pg)
      → IsValid pg ctx
      → IsValid pg (step pg pools (ctx, w) c).0
  unfolding step
  step-IsValid pools ctx w begins h = begin-IsValid pg pools ctx w h
  step-IsValid pools ctx w commits h = commit-IsValid pg ctx w h
  step-IsValid pools ctx w rolls_back h = rollback-IsValid pg ctx w h
  step-IsValid pools ctx w finalizes h = finalize-IsValid ctx w h
  step-IsValid pools ctx w sets_error h = h
  step-IsValid pools ctx w (sets_auto_commit b) h = h
  step-IsValid pools ctx w (queries sql ps) h = query-IsValid pg pools sql ps ctx w h
  step-IsValid pools ctx w (executes sql ps) h = execute-IsValid pg pools sql ps ctx w h

  run_from-IsValid :
      (pools : Map String pg.Pool) (ctx : DatabaseContextInner pg) (w : pg.World)
      (cs : List (Call pg))
      → IsValid pg ctx
      → IsValid pg (run pg pools (ctx, w) cs).0
  unfolding run
  run_from-IsValid pools ctx w [] h = h
  run_from-IsValid pools ctx w (c ∷ cs) h =
      let (ctx', w') = step pg pools (ctx, w) c in
      run_from-IsValid pools (step pg pools (ctx, w) c).0 (step pg pools (ctx, w) c).1 cs
        (step-IsValid pools ctx w c h)

  -- After any calls on a new context, whatever the pools and the server answered: the transaction
  -- flag is set exactly in the state `InTransaction`, and a connection is held exactly in the states
  -- other than `Idle` and `Closed`.
  pub run-IsValid :
      (pools : Map String pg.Pool) (request_id alias : String) (w : pg.World) (cs : List (Call pg))
      → IsValid pg (run pg pools (new pg request_id alias, w) cs).0
  run-IsValid pools request_id alias w cs =
      run_from-IsValid pools (new pg request_id alias) w cs (refl, refl)

  -- Whether `finalize` commits an active transaction.
  abbrev pub commits_at_end : DatabaseContextInner pg → Bool
  commits_at_end ctx = not ctx.has_error && ctx.auto_commit

  abbrev pub verdict : Bool → String
  verdict b = if b then "COMMIT" else "ROLLBACK"

  abbrev pub complaint : Bool → String
  complaint b = if b then "Failed to commit transaction: " else "Failed to rollback transaction: "

  -- The outcome for a context that held `conn`, by the server's answer.
  abbrev pub finalized :
      DatabaseContextInner pg → pg.Object → pg.World × Answer pg.Error ℕ → Outcome pg Unit
  finalized ctx conn (w, done n) = (
    (record ctx { connection = none; state = closed; in_transaction = false }, pg.drop conn w),
    ok tt,
  )
  finalized ctx conn (w, failed e) =
      ((ctx, w), err (String.◌++◌ (complaint (commits_at_end ctx)) (pg.display e)))

  after_settle :
      (b : Bool) (s : ContextState) (ctx : DatabaseContextInner pg) (conn : pg.Object)
      (o : pg.World × Answer pg.Error ℕ)
      → ctx.connection ≡ some conn
      → commits_at_end ctx ≡ b
      → and_then pg
          (settle pg
            (λ e. String.◌++◌ (complaint b) (pg.display e))
            (λ _. tt)
            (λ c. record c { in_transaction = false; state = s })
            ctx
            o)
          (λ _ c v. (release pg c v, ok tt))
        ≡ finalized ctx conn o
  after_settle b s ctx conn (w, done n) k q = ground (arith, k)
  after_settle b s ctx conn (w, failed e) k q =
      ap (λ z. ((ctx, w), err (String.◌++◌ (complaint z) (pg.display e)))) (sym q)

  end_transaction-commit :
      (ctx : DatabaseContextInner pg) (w : pg.World)
      → ctx.in_transaction ≡ true
      → commits_at_end ctx ≡ true
      → end_transaction pg ctx w
        ≡ send pg "COMMIT" "Failed to commit transaction: "
            (λ c. record c { in_transaction = false; state = committed })
            ctx
            w
  unfolding end_transaction commit rollback
  end_transaction-commit ctx w h q = ground (arith, h, q)

  end_transaction-rollback :
      (ctx : DatabaseContextInner pg) (w : pg.World)
      → ctx.in_transaction ≡ true
      → commits_at_end ctx ≡ false
      → end_transaction pg ctx w
        ≡ send pg "ROLLBACK" "Failed to rollback transaction: "
            (λ c. record c { in_transaction = false; state = rolled_back })
            ctx
            w
  unfolding end_transaction commit rollback
  end_transaction-rollback ctx w h q = ground (arith, h, q)

  -- `finalize` of an active transaction on the connection `conn`: it sends `COMMIT` when no error
  -- was recorded and auto-commit is on, and `ROLLBACK` otherwise. If the server does it, the
  -- connection is dropped, none is held, and the context is closed without a transaction; if the
  -- server fails, `finalize` fails with the message, and the context is unchanged: it still holds
  -- the connection and its transaction.
  pub finalize_lem :
      (ctx : DatabaseContextInner pg) (w : pg.World) (conn : pg.Object)
      → ctx.in_transaction ≡ true
      → ctx.connection ≡ some conn
      → finalize pg ctx w ≡ finalized ctx conn (pg.execute (verdict (commits_at_end ctx)) [] conn w)
  unfolding finalize
  finalize_lem ctx w conn h k =
      let after = λ (o : Outcome pg Unit). and_then pg o (λ _ c v. (release pg c v, ok tt)) in
      elim (Bool-cases (commits_at_end ctx)) [
        | inl yes' ↦
            ap after (end_transaction-commit ctx w h yes')
            ∙ ap after (with_connection-some _ ctx w conn k)
            ∙ after_settle true committed ctx conn (pg.execute "COMMIT" [] conn w) k yes'
            ∙ ap (λ b. finalized ctx conn (pg.execute (verdict b) [] conn w)) (sym yes')
        | inr no' ↦
            ap after (end_transaction-rollback ctx w h no')
            ∙ ap after (with_connection-some _ ctx w conn k)
            ∙ after_settle false rolled_back ctx conn (pg.execute "ROLLBACK" [] conn w) k no'
            ∙ ap (λ b. finalized ctx conn (pg.execute (verdict b) [] conn w)) (sym no')
      ]
