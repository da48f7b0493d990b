-- ===== src/Database/Context/Tests.antt =====
-- Tests of a context, and the theorems at concrete inputs. The server writes down the statements that
-- it gets, and fails one of them.
use hypern.Prelude.{
  ℕ, String, ◌≡◌, refl, true, none, some, List, [], ◌∷◌, ◌++◌, if◌then◌else◌, ◌==◌, string_eq,
  nat_eq,
}
use hypern.Prelude.Map
use hypern.Prelude.Map.{Map}
use hypern.Database.Postgres.{Postgres, err, done, failed}
use hypern.Database.Context.{
  DatabaseContextInner, in_transaction, new, ensure_connection, begin, commit, rollback, query,
  execute, end_transaction, finalize,
}
use hypern.Database.Context.Transactions.{
  begins, commits, finalizes, sets_error, executes, step, run, IsValid,
}
use hypern.Database.Context.Finalizing.{run-IsValid, finalize_lem}

context : Unit {0}
unfolding ensure_connection begin commit rollback query execute end_transaction finalize step run
    Map.lookup
context = tt

abbrev recorder : String → Postgres
recorder broken = record {
  Pool = Unit;
  Object = ℕ;
  Row = String;
  DynParam = String;
  Error = String;
  World = List String;
  get = λ pool w. (w, done 7);
  execute = λ sql ps conn w. (w ++ sql ∷ [], if sql == broken then failed "down" else done 1);
  query = λ sql ps conn w. (w ++ sql ∷ [], done []);
  drop = λ conn w. w ++ "drop" ∷ [];
  as_db_error = λ e. none;
  display = λ e. e;
}

abbrev pools : Map {0, 0} String Unit
pools = ("main", tt) ∷ []

abbrev started : DatabaseContextInner (recorder "COMMIT")
started = record (new (recorder "COMMIT") "r1" "main") {
  connection = some 7;
  state = in_transaction;
  in_transaction = true;
}

begin_test :
    run (recorder "COMMIT") pools (new (recorder "COMMIT") "r1" "main", []) (begins ∷ [])
    ≡ (started, "BEGIN" ∷ [])
unfolding context
begin_test = refl

rollback_test :
    (run
      (recorder "")
      pools
      (new (recorder "") "r1" "main", [])
      (begins ∷ executes "insert" [] ∷ sets_error ∷ finalizes ∷ [])).1
    ≡ "BEGIN" ∷ "insert" ∷ "ROLLBACK" ∷ "drop" ∷ []
unfolding context
rollback_test = refl

-- A closed context takes a new connection from the pool when it is used again.
reuse_test :
    (run
      (recorder "")
      pools
      (new (recorder "") "r1" "main", [])
      (finalizes ∷ executes "insert" [] ∷ [])).0.connection
    ≡ some 7
unfolding context
reuse_test = refl

run-IsValid_example :
    IsValid
      (recorder "COMMIT")
      (run
        (recorder "COMMIT")
        pools
        (new (recorder "COMMIT") "r1" "main", [])
        (begins ∷ commits ∷ finalizes ∷ [])).0
run-IsValid_example =
    run-IsValid (recorder "COMMIT") pools "r1" "main" [] (begins ∷ commits ∷ finalizes ∷ [])

finalize_lem_example :
    finalize (recorder "COMMIT") started []
    ≡ ((started, "COMMIT" ∷ []), err "Failed to commit transaction: down")
finalize_lem_example = finalize_lem (recorder "COMMIT") started [] 7 refl refl
