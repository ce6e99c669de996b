-- ===== src/Postgres/Pool.antt =====
-- What the Postgres adapter calls of deadpool-postgres and tokio-postgres.
use ematix_probe.Prelude.{ℤ, String, Option, List}
use ematix_probe.Message.{Message}
use ematix_probe.Crates.{Result}

-- A bound parameter of a query.
pub data SqlParam (F : Type 0) : Type 0 where
  float8 : F → SqlParam F
  text : String → SqlParam F

-- A pool and the database behind it, with a state. `get` acquires a client; `query_count` and
-- `query_age` are `query_one` and a read of the first column as an `i64` or an `Option<f64>`. The
-- error is its text.
pub record Pool (S F : Type 0) : Type 0 where
  pub get : S → Result String Unit × S
  pub query_count : Message F → List (SqlParam F) → S → Result String ℤ × S
  pub query_age : Message F → S → Result String (Option F) × S
