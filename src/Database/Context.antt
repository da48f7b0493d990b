-- ===== src/Database/Context.antt =====
-- src/database/request_context.rs, `DatabaseContextInner`: one connection and its transaction.
-- The fields behind mutexes are plain fields. A method runs to its end before the next one starts,
-- as the calls of `DbSession` do, which block. `pools` is the table of the pool manager, and the SQL
-- goes to the parameter `pg`.
pub mod Transactions
pub mod Finalizing
mod Tests
use Prim.Native.String
use hypern.Prelude.{
  ℕ, String, Bool, true, false, not, Option, none, some, List, [], ◌∷◌, if◌then◌else◌, is_some,
  drop, string_eq, nat_eq,
}
use hypern.Prelude.Map
use hypern.Prelude.Map.{Map}
use hypern.Database.Postgres.{Postgres, DbError, Result, ok, err, Answer, done, failed}

pub data ContextState : Type 0 where
  idle connected in_transaction committed rolled_back closed : ContextState

abbrev pub concat : List String → String
concat [] = ""
concat (s ∷ ss) = String.◌++◌ s (concat ss)

abbrev line : String → Option String → String
line label o = elim o [ none ↦ "" | some s ↦ String.◌++◌ label s ]

module _ (pg : Postgres) where
  unfoldable pub format_db_error : pg.Error → String
  format_db_error e = elim (pg.as_db_error e) [
    | some d ↦ concat (
        "PostgreSQL error: "
        ∷ d.message
        ∷ " (SQLSTATE "
        ∷ d.code
        ∷ ")"
        ∷ line "\nDetail: " d.detail
        ∷ line "\nHint: " d.hint
        ∷ line "\nPosition: " d.position
        ∷ [])
    | none ↦ pg.display e
  ]

  pub record DatabaseContextInner : Type 0 where
    pub request_id : String
    pub alias : String
    pub connection : Option pg.Object
    pub state : ContextState
    pub auto_commit : Bool
    pub has_error : Bool
    pub in_transaction : Bool

  -- DatabaseContextInner::new
  abbrev pub new : String → String → DatabaseContextInner
  new request_id alias = record {
    request_id = request_id;
    alias = alias;
    connection = none;
    state = idle;
    auto_commit = true;
    has_error = false;
    in_transaction = false;
  }

  -- What a method returns: the context and the world as it left them, and its result.
  abbrev pub Outcome : Type 0 → Type 0
  Outcome A = (DatabaseContextInner × pg.World) × Result A

  abbrev pub set_auto_commit : Bool → DatabaseContextInner → DatabaseContextInner
  set_auto_commit auto_commit ctx = record ctx { auto_commit = auto_commit }

  abbrev pub set_error : DatabaseContextInner → DatabaseContextInner
  set_error ctx = record ctx { has_error = true }

  -- `?`: go on with the context and the world after a success.
  abbrev pub and_then :
      {A B : Type 0} → Outcome A → (A → DatabaseContextInner → pg.World → Outcome B) → Outcome B
  and_then ((ctx, w), ok a) k = k a ctx w
  and_then ((ctx, w), err e) k = ((ctx, w), err e)

  -- `ensure_connection` where the pool has answered.
  abbrev pub connected_by :
      DatabaseContextInner → pg.World × Answer pg.Error pg.Object → Outcome Unit
  connected_by ctx (w, done conn) =
      ((record ctx { connection = some conn; state = connected }, w), ok tt)
  connected_by ctx (w, failed e) =
      ((ctx, w), err (String.◌++◌ "Failed to acquire connection: " (pg.display e)))

  unfoldable pub ensure_connection :
      Map String pg.Pool → DatabaseContextInner → pg.World → Outcome Unit
  ensure_connection pools ctx w =
      if is_some ctx.connection then ((ctx, w), ok tt) else elim (Map.lookup ctx.alias pools) [
        | none ↦ (
          (ctx, w),
          err (concat ("Connection pool for alias '" ∷ ctx.alias ∷ "' not initialized" ∷ [])),
        )
        | some pool ↦ connected_by ctx (pg.get pool w)
      ]

  -- The end of each method that talks to the server: the writes after a success, or the message.
  abbrev pub settle :
      {A B : Type 0}
      → (pg.Error → String)
      → (A → B)
      → (DatabaseContextInner → DatabaseContextInner)
      → DatabaseContextInner
      → pg.World × Answer pg.Error A
      → Outcome B
  settle message value writes ctx (w, done a) = ((writes ctx, w), ok (value a))
  settle message value writes ctx (w, failed e) = ((ctx, w), err (message e))

  -- `take_connection`, the call, `put_connection`: the connection is back after the call.
  abbrev pub with_connection :
      {B : Type 0} → (pg.Object → Outcome B) → DatabaseContextInner → pg.World → Outcome B
  with_connection call ctx w = elim ctx.connection [
    | none ↦ ((ctx, w), err "No connection available")
    | some conn ↦ call conn
  ]

  -- One statement without parameters, the writes that follow it, and the message of a failure.
  abbrev pub send :
      String
      → String
      → (DatabaseContextInner → DatabaseContextInner)
      → DatabaseContextInner
      → pg.World
      → Outcome Unit
  send sql message writes ctx w =
      with_connection
        (λ conn.
          settle (λ e. String.◌++◌ message (pg.display e)) (λ _. tt) writes ctx
            (pg.execute sql [] conn w))
        ctx w

  unfoldable pub begin : Map String pg.Pool → DatabaseContextInner → pg.World → Outcome Unit
  begin pools ctx w = and_then (ensure_connection pools ctx w) (λ _ c v.
      if c.in_transaction
      then ((c, v), err "Transaction already active")
      else send "BEGIN" "Failed to begin transaction: "
          (λ c'. record c' { in_transaction = true; state = in_transaction }) c v)

  unfoldable pub commit : DatabaseContextInner → pg.World → Outcome Unit
  commit ctx w =
      if ctx.in_transaction
      then send "COMMIT" "Failed to commit transaction: "
          (λ c. record c { in_transaction = false; state = committed }) ctx w
      else ((ctx, w), err "No active transaction to commit")

  unfoldable pub rollback : DatabaseContextInner → pg.World → Outcome Unit
  rollback ctx w =
      if ctx.in_transaction
      then send "ROLLBACK" "Failed to rollback transaction: "
          (λ c. record c { in_transaction = false; state = rolled_back }) ctx w
      else ((ctx, w), err "No active transaction to rollback")

  unfoldable pub query :
      Map String pg.Pool
      → String
      → List pg.DynParam
      → DatabaseContextInner
      → pg.World
      → Outcome (List pg.Row)
  query pools sql params ctx w = and_then (ensure_connection pools ctx w) (λ _ c v.
      with_connection
        (λ conn.
          settle (λ e. String.◌++◌ "Query failed: " (format_db_error e)) (λ rows. rows) (λ c'. c') c
            (pg.query sql params conn v))
        c v)

  unfoldable pub execute :
      Map String pg.Pool → String → List pg.DynParam → DatabaseContextInner → pg.World → Outcome ℕ
  execute pools sql params ctx w = and_then (ensure_connection pools ctx w) (λ _ c v.
      with_connection
        (λ conn.
          settle (λ e. String.◌++◌ "Execute failed: " (format_db_error e)) (λ n. n) (λ c'. c') c
            (pg.execute sql params conn v))
        c v)

  -- The first part of `finalize`: the end of an active transaction.
  unfoldable pub end_transaction : DatabaseContextInner → pg.World → Outcome Unit
  unfolding commit rollback
  end_transaction ctx w =
      if ctx.in_transaction
      then (if ctx.has_error
          then rollback ctx w
          else (if ctx.auto_commit then commit ctx w else rollback ctx w))
      else ((ctx, w), ok tt)

  -- The second part: the connection goes back to its pool.
  abbrev pub release : DatabaseContextInner → pg.World → DatabaseContextInner × pg.World
  release ctx w = (
    record ctx { connection = none; state = closed },
    elim ctx.connection [ none ↦ w | some conn ↦ pg.drop conn w ],
  )

  -- `finalize` up to the table of contexts, which is in `Requests`.
  unfoldable pub finalize : DatabaseContextInner → pg.World → Outcome Unit
  unfolding end_transaction
  finalize ctx w = and_then (end_transaction ctx w) (λ _ c v. (release c v, ok tt))
