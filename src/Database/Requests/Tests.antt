-- ===== src/Database/Requests/Tests.antt =====
-- Tests of the table of contexts, and the theorems at concrete inputs.
use hypern.Prelude.{
  ℕ, String, ◌≡◌, refl, true, none, some, List, [], ◌∷◌, ◌++◌, if◌then◌else◌, ◌==◌, string_eq,
  nat_eq,
}
use hypern.Prelude.Map
use hypern.Prelude.Map.{Map}
use hypern.Database.Postgres.{Postgres, done, failed}
use hypern.Database.Context.{
  DatabaseContextInner, in_transaction, new, end_transaction, commit, rollback, finalize,
}
use hypern.Database.Requests.{
  Requests, forget, create_request_context, get_request_context, get_db, finalize_context,
  finalize_request_context, finalize_each, finalize_all_request_contexts,
}
use hypern.Database.Requests.Forgetting.{get_request_context-finalize}

table : Unit {0}
unfolding forget create_request_context get_db finalize_context finalize_request_context
    finalize_each finalize_all_request_contexts finalize end_transaction commit rollback Map.lookup
    Map.insert Map.remove
table = tt

-- A server that fails `COMMIT`.
abbrev stubborn : Postgres
stubborn = record {
  Pool = Unit;
  Object = ℕ;
  Row = String;
  DynParam = String;
  Error = String;
  World = List String;
  get = λ pool w. (w, done 7);
  execute = λ sql ps conn w. (w ++ sql ∷ [], if sql == "COMMIT" then failed "down" else done 1);
  query = λ sql ps conn w. (w ++ sql ∷ [], done []);
  drop = λ conn w. w ++ "drop" ∷ [];
  as_db_error = λ e. none;
  display = λ e. e;
}

abbrev nothing : Requests stubborn
nothing = record { heap = []; next = 0; contexts = [] }

abbrev two : Requests stubborn
two = (get_db stubborn "r1" "b" (get_db stubborn "r1" "a" nothing).0).0

again_test : get_db stubborn "r1" "a" two ≡ (two, 0)
unfolding table
again_test = refl

all_test : (finalize_all_request_contexts stubborn "r1" two []).0.0.contexts ≡ []
unfolding table
all_test = refl

abbrev busy : DatabaseContextInner stubborn
busy = record (new stubborn "r1" "a") {
  connection = some 7;
  state = in_transaction;
  in_transaction = true;
}

-- The failure of the first context's commit leaves the second one as it was.
stops_test :
    (finalize_all_request_contexts stubborn "r1"
      (record two { heap = Map.insert 0 busy two.heap })
      []).0.0
    ≡ record two { heap = Map.insert 0 busy two.heap }
unfolding table
stops_test = refl

get_request_context-finalize_test :
    get_request_context stubborn "r1" "a" (finalize_request_context stubborn "r1" "a" two []).0.0
    ≡ none
unfolding table
get_request_context-finalize_test =
    get_request_context-finalize stubborn "r1" "a" "r1" "a" two [] 0 (new stubborn "r1" "a") refl
      refl refl refl
