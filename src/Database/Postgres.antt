-- ===== src/Database/Postgres.antt =====
-- What src/database/request_context.rs uses of `deadpool_postgres` and `tokio_postgres`, as one
-- interface: pools, connections, errors, and the server with everything else as a `World` that each
-- call passes on. A later change of another client is part of the `World`.
use hypern.Prelude.{ℕ, String, Option, List}

pub data Result (A : Type 0) : Type 0 where
  ok : A → Result A
  err : String → Result A

pub record DbError : Type 0 where
  pub message : String
  pub code : String
  pub detail : Option String
  pub hint : Option String
  pub position : Option String

-- What a call to the server returns.
pub data Answer (E A : Type 0) : Type 0 where
  done : A → Answer E A
  failed : E → Answer E A

pub record Postgres : Type 1 where
  pub Pool : Type 0
  pub Object : Type 0
  pub Row : Type 0
  pub DynParam : Type 0
  pub Error : Type 0
  pub World : Type 0
  pub get : Pool → World → World × Answer Error Object
  pub execute : String → List DynParam → Object → World → World × Answer Error ℕ
  pub query : String → List DynParam → Object → World → World × Answer Error (List Row)
  pub drop : Object → World → World
  pub as_db_error : Error → Option DbError
  pub display : Error → String
