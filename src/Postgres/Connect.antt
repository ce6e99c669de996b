-- ===== src/Postgres/Connect.antt =====
-- `PostgresAdapter::connect` of adapters/data/postgres.rs.
use ematix_probe.Prelude.{pos, String, [], ◌∷◌, if◌then◌else◌, int_eq}
use ematix_probe.Message.{lit, str, int}
use ematix_probe.Adapter.{AdapterError}
use ematix_probe.Call.{Call, stateless, raise, pure, ◌>>=◌}
use ematix_probe.Crates.{Result}
use ematix_probe.Blocking.{map_err, outcome}
use ematix_probe.Postgres.Pool.{Pool}
use ematix_probe.Postgres.Deadpool.{Deadpool}

-- a call on the pool, with the error mapped
abbrev pub checked :
    {S F A : Type 0} → (String → AdapterError F) → (S → Result String A × S) → Call S F A
checked f call s = (outcome (map_err f (call s).0), (call s).1)

module _ {F S Config DbPool : Type 0} (deadpool : Deadpool Config DbPool)
    (calls : DbPool → Pool S F) where
  -- `deadpool` makes the pool, and `calls` are its calls; the adapter is its pool
  unfoldable pub connect : String → Call S F DbPool
  connect url = do
    pg_config ← stateless (
        outcome (
          map_err (λ e. AdapterError.config (lit "invalid postgres URL: " ∷ str e ∷ []))
            (deadpool.from_str url)))
    pool ← stateless (
        outcome (
          map_err (λ e. AdapterError.connection (lit "pool builder failed: " ∷ str e ∷ []))
            (deadpool.build pg_config)))
    client ←
        checked (λ e. AdapterError.connection (lit "acquire failed: " ∷ str e ∷ []))
          (calls pool).get
    val ←
        checked (λ e. AdapterError.query (lit "validation SELECT 1 failed: " ∷ str e ∷ []))
          ((calls pool).query_count (lit "SELECT 1::int8" ∷ []) [])
    if int_eq.beq val (pos 1)
        then pure pool
        else raise (
            AdapterError.query
              (lit "validation SELECT 1 returned " ∷ int val ∷ lit ", expected 1" ∷ []))
