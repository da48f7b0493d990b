-- ===== src/Database/Context/Transactions.antt =====
-- The states of a context: what its flags and its connection say in each of them, after any calls.
use Prim.Native.String
use hypern.Prelude.{
  String, ◌≡◌, refl, sym, ap, ◌∙◌, inl, inr, Bool, true, false, some, List, [], ◌∷◌, arith, if-both,
  if-split, Option-cases, is_some, string_eq, nat_eq,
}
use hypern.Prelude.Map
use hypern.Prelude.Map.{Map}
use hypern.Database.Postgres.{Postgres, ok, err, Answer, done, failed}
use hypern.Database.Context.{
  ContextState, idle, connected, in_transaction, committed, rolled_back, closed, format_db_error,
  DatabaseContextInner, Outcome, set_auto_commit, set_error, and_then, connected_by,
  ensure_connection, settle, with_connection, send, begin, commit, rollback, query, execute,
  end_transaction, finalize,
}

abbrev pub is_active : ContextState → Bool
is_active in_transaction = true
is_active idle = false
is_active connected = false
is_active committed = false
is_active rolled_back = false
is_active closed = false

abbrev pub holds_connection : ContextState → Bool
holds_connection idle = false
holds_connection closed = false
holds_connection connected = true
holds_connection in_transaction = true
holds_connection committed = true
holds_connection rolled_back = true

module _ (pg : Postgres) where
  -- The flag and the state agree, and a connection is held in every state but the first and the last.
  abbrev pub IsValid : DatabaseContextInner pg → Type 0
  IsValid ctx =
      (ctx.in_transaction ≡ is_active ctx.state)
      × (is_some ctx.connection ≡ holds_connection ctx.state)

  abbrev pub LeavesValid : {A : Type 0} → Outcome pg A → Type 0
  LeavesValid o = IsValid o.0.0

  -- The calls that change a context.
  pub data Call : Type 0 where
    begins commits rolls_back finalizes sets_error : Call
    sets_auto_commit : Bool → Call
    queries executes : String → List pg.DynParam → Call

  unfoldable pub step :
      Map String pg.Pool
      → DatabaseContextInner pg × pg.World
      → Call
      → DatabaseContextInner pg × pg.World
  step pools (ctx, w) begins = (begin pg pools ctx w).0
  step pools (ctx, w) commits = (commit pg ctx w).0
  step pools (ctx, w) rolls_back = (rollback pg ctx w).0
  step pools (ctx, w) finalizes = (finalize pg ctx w).0
  step pools (ctx, w) sets_error = (set_error pg ctx, w)
  step pools (ctx, w) (sets_auto_commit b) = (set_auto_commit pg b ctx, w)
  step pools (ctx, w) (queries sql ps) = (query pg pools sql ps ctx w).0
  step pools (ctx, w) (executes sql ps) = (execute pg pools sql ps ctx w).0

  unfoldable pub run :
      Map String pg.Pool
      → DatabaseContextInner pg × pg.World
      → List Call
      → DatabaseContextInner pg × pg.World
  run pools cw [] = cw
  run pools cw (c ∷ cs) = run pools (step pools cw c) cs

  inactive : (s : ContextState) → holds_connection s ≡ false → is_active s ≡ false
  inactive s h = ground arith

  and_then-IsValid :
      {A B : Type 0} (o : Outcome pg A) (k : A → DatabaseContextInner pg → pg.World → Outcome pg B)
      → IsValid o.0.0
      → ((a : A) (c : DatabaseContextInner pg) (v : pg.World) → IsValid c → IsValid (k a c v).0.0)
      → IsValid (and_then pg o k).0.0
  and_then-IsValid ((c, v), ok a) k h h' = h' a c v h
  and_then-IsValid ((c, v), err e) k h h' = h

  connected_by-IsValid :
      (ctx : DatabaseContextInner pg) (o : pg.World × Answer pg.Error pg.Object)
      → IsValid ctx
      → is_some ctx.connection ≡ false
      → IsValid (connected_by pg ctx o).0.0
  connected_by-IsValid ctx (w, done conn) h n = (h.0 ∙ inactive ctx.state (sym h.1 ∙ n), refl)
  connected_by-IsValid ctx (w, failed e) h n = h

  ensure_connection-IsValid :
      (pools : Map String pg.Pool) (ctx : DatabaseContextInner pg) (w : pg.World)
      → IsValid ctx
      → IsValid (ensure_connection pg pools ctx w).0.0
  unfolding ensure_connection
  ensure_connection-IsValid pools ctx w h =
      if-split LeavesValid (is_some ctx.connection) (λ _. h)
        (λ n. elim (Option-cases (Map.lookup ctx.alias pools)) [
          | inl none' ↦ ground (arith, none', h)
          | inr (pool, some') ↦ ground (arith, some', connected_by-IsValid ctx (pg.get pool w) h n)
        ])

  settle-IsValid :
      {A B : Type 0} (message : pg.Error → String) (value : A → B)
      (writes : DatabaseContextInner pg → DatabaseContextInner pg) (ctx : DatabaseContextInner pg)
      (o : pg.World × Answer pg.Error A)
      → IsValid ctx
      → IsValid (writes ctx)
      → IsValid (settle pg message value writes ctx o).0.0
  settle-IsValid message value writes ctx (w, done a) h h' = h'
  settle-IsValid message value writes ctx (w, failed e) h h' = h

  with_connection-IsValid :
      {B : Type 0} (call : pg.Object → Outcome pg B) (ctx : DatabaseContextInner pg) (w : pg.World)
      → IsValid ctx
      → ((conn : pg.Object) → ctx.connection ≡ some conn → IsValid (call conn).0.0)
      → IsValid (with_connection pg call ctx w).0.0
  with_connection-IsValid call ctx w h h' = elim (Option-cases ctx.connection) [
    | inl none' ↦ ground (arith, none', h)
    | inr (conn, some') ↦ ground (arith, some', h' conn some')
  ]

  send-IsValid :
      (sql message : String) (writes : DatabaseContextInner pg → DatabaseContextInner pg)
      (ctx : DatabaseContextInner pg) (w : pg.World)
      → IsValid ctx
      → (is_some ctx.connection ≡ true → IsValid (writes ctx))
      → IsValid (send pg sql message writes ctx w).0.0
  send-IsValid sql message writes ctx w h h' = with_connection-IsValid _ ctx w h (λ conn some'.
      settle-IsValid _ _ writes ctx (pg.execute sql [] conn w) h (h' (ap is_some some')))

  pub begin-IsValid :
      (pools : Map String pg.Pool) (ctx : DatabaseContextInner pg) (w : pg.World)
      → IsValid ctx
      → IsValid (begin pg pools ctx w).0.0
  unfolding begin
  begin-IsValid pools ctx w h =
      and_then-IsValid (ensure_connection pg pools ctx w) _
        (ensure_connection-IsValid pools ctx w h)
        (λ _ c v h'. if-both LeavesValid c.in_transaction h' (
          send-IsValid "BEGIN" "Failed to begin transaction: "
            (λ c'. record c' { in_transaction = true; state = in_transaction }) c v h'
            (λ held. (refl, held))))

  pub commit-IsValid :
      (ctx : DatabaseContextInner pg) (w : pg.World) → IsValid ctx → IsValid (commit pg ctx w).0.0
  unfolding commit
  commit-IsValid ctx w h =
      if-both LeavesValid ctx.in_transaction
        (send-IsValid "COMMIT" "Failed to commit transaction: "
          (λ c. record c { in_transaction = false; state = committed }) ctx w h
          (λ held. (refl, held)))
        h

  pub rollback-IsValid :
      (ctx : DatabaseContextInner pg) (w : pg.World) → IsValid ctx → IsValid (rollback pg ctx w).0.0
  unfolding rollback
  rollback-IsValid ctx w h =
      if-both LeavesValid ctx.in_transaction
        (send-IsValid "ROLLBACK" "Failed to rollback transaction: "
          (λ c. record c { in_transaction = false; state = rolled_back }) ctx w h
          (λ held. (refl, held)))
        h

  pub query-IsValid :
      (pools : Map String pg.Pool) (sql : String) (ps : List pg.DynParam)
      (ctx : DatabaseContextInner pg) (w : pg.World)
      → IsValid ctx
      → IsValid (query pg pools sql ps ctx w).0.0
  unfolding query
  query-IsValid pools sql ps ctx w h =
      and_then-IsValid (ensure_connection pg pools ctx w) _
        (ensure_connection-IsValid pools ctx w h)
        (λ _ c v h'. with_connection-IsValid _ c v h' (λ conn _.
          settle-IsValid (λ e. String.◌++◌ "Query failed: " (format_db_error pg e)) (λ rows. rows)
            (λ c'. c') c (pg.query sql ps conn v) h' h'))

  pub execute-IsValid :
      (pools : Map String pg.Pool) (sql : String) (ps : List pg.DynParam)
      (ctx : DatabaseContextInner pg) (w : pg.World)
      → IsValid ctx
      → IsValid (execute pg pools sql ps ctx w).0.0
  unfolding execute
  execute-IsValid pools sql ps ctx w h =
      and_then-IsValid (ensure_connection pg pools ctx w) _
        (ensure_connection-IsValid pools ctx w h)
        (λ _ c v h'. with_connection-IsValid _ c v h' (λ conn _.
          settle-IsValid (λ e. String.◌++◌ "Execute failed: " (format_db_error pg e)) (λ n. n)
            (λ c'. c') c (pg.execute sql ps conn v) h' h'))

  pub end_transaction-IsValid :
      (ctx : DatabaseContextInner pg) (w : pg.World)
      → IsValid ctx
      → IsValid (end_transaction pg ctx w).0.0
  unfolding end_transaction
  end_transaction-IsValid ctx w h =
      let rolled = rollback-IsValid ctx w h in
      if-both LeavesValid ctx.in_transaction
        (if-both LeavesValid ctx.has_error rolled
          (if-both LeavesValid ctx.auto_commit (commit-IsValid ctx w h) rolled))
        h
