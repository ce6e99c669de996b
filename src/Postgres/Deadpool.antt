-- ===== src/Postgres/Deadpool.antt =====
-- What the Postgres adapters call to make a pool.
use ematix_probe.Prelude.{String}
use ematix_probe.Crates.{Result}

-- `Config::from_str` of tokio-postgres, and deadpool-postgres' `Pool::builder(…).build()` with a manager
-- from the configuration, without TLS and with fast recycling. The error is its text.
pub record Deadpool (Config DbPool : Type 0) : Type 0 where
  pub from_str : String → Result String Config
  pub build : Config → Result String DbPool
