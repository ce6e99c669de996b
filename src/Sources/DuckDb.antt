-- ===== src/Sources/DuckDb.antt =====
-- `DuckDbAdapter` of adapters/data/duckdb.rs. What it calls of the duckdb crate is a parameter.
pub mod Ident
pub mod Reads
pub mod Poison
use ematix_probe.Prelude.{ℕ, suc, String, Option, List, [], ◌∷◌, length}
use ematix_probe.Message.{Message, lit, str, debug_str}
use ematix_probe.Float.{Float}
use ematix_probe.Adapter.{AdapterError, Outcome, returned, and_then}
use ematix_probe.Call.{Call}
use ematix_probe.Crates.{Result, Crates}
use ematix_probe.Blocking.{
  Reply, Closure, Mutex, unlocked, map_err, answer, attempt, infallible, finish, await_blocking,
  outcome, with_lock, ◌>>=◌,
}
use ematix_probe.Data.{ProbePlan, RunSummary}
use ematix_probe.Scan.Evaluate.{vec_scanner, evaluate}
use ematix_probe.Sources.DuckDb.Ident.{qualified_table}

-- `Connection::open`, and on a connection `execute_batch`, `prepare`, `query_arrow` of a statement,
-- `get_schema` of its stream and the collecting of the stream's batches, which gives no error but
-- may panic. A connection is its state.
pub record DuckDb (F Connection Statement Stream Schema Batch : Type 0) : Type 0 where
  pub open_path : String → Reply (Result String Connection)
  pub execute_batch : String → Connection → Reply (Result String Unit) × Connection
  pub prepare : Message F → Connection → Reply (Result String Statement) × Connection
  pub query_arrow : Statement → Connection → Reply (Result String Stream) × Connection
  pub get_schema : Stream → Schema
  pub collect : Stream → Connection → Reply (List Batch) × Connection

-- `struct DuckDbAdapter`: the connection behind its mutex
abbrev pub DuckDbAdapter : Type 0 → Type 0
DuckDbAdapter Connection = Mutex Connection

module _ {F Connection Statement Stream Schema Batch : Type 0}
    (db : DuckDb F Connection Statement Stream Schema Batch) where
  -- `DuckDbAdapter::open`
  unfoldable pub open_database : String → Outcome F (DuckDbAdapter Connection)
  unfolding answer and_then
  open_database path =
      and_then
        (answer
          (λ e.
            AdapterError.connection (lit "duckdb open " ∷ debug_str path ∷ lit ": " ∷ str e ∷ []))
          (db.open_path path))
        λ conn.
          let (reply, conn') = db.execute_batch "SELECT 1" conn in
          and_then
            (answer
              (λ e. AdapterError.query (lit "duckdb validation SELECT 1 failed: " ∷ str e ∷ []))
              reply)
            λ done. returned (unlocked conn')

  -- `execute_setup`
  unfoldable pub execute_setup : String → Call (DuckDbAdapter Connection) F Unit
  unfolding attempt with_lock await_blocking map_err
  execute_setup sql m =
      let (reply, m') =
        with_lock "duckdb mutex poisoned"
          (attempt (λ e. AdapterError.query (lit "duckdb setup batch failed: " ∷ str e ∷ []))
            (db.execute_batch sql))
          m in
      (outcome (await_blocking reply), m')

  -- the closure of `execute`, with the guard: the schema and all the batches of the table
  unfoldable pub read_table : String → Closure Connection F (Schema × List Batch)
  read_table qualified = do
    stmt ←
        attempt (λ e. AdapterError.query (lit "duckdb prepare failed: " ∷ str e ∷ []))
          (db.prepare (lit "SELECT * FROM " ∷ str qualified ∷ []))
    stream ←
        attempt (λ e. AdapterError.query (lit "duckdb query_arrow failed: " ∷ str e ∷ []))
          (db.query_arrow stmt)
    batches ← infallible (db.collect stream)
    finish (db.get_schema stream, batches)

module _ {F : Type 0} (c : Crates F) ⦃fl : Float F⦄ where
  open c use {DataType, Schema, RecordBatch}

  module _ {Connection Statement Stream : Type 0}
      (db : DuckDb F Connection Statement Stream Schema RecordBatch) where
    -- `execute`: the scanner has all the batches, so one pull more than there are is enough
    unfoldable pub execute_duckdb :
        (ℕ → Option ℕ) → ProbePlan F DataType → Call (DuckDbAdapter Connection) F (RunSummary F)
    unfolding and_then with_lock await_blocking
    execute_duckdb clock plan m =
        let (reply, m') =
          with_lock "duckdb mutex poisoned" (read_table db (qualified_table plan.schema plan.table))
            m in
        (
          and_then (outcome (await_blocking reply)) λ (schema, batches).
              evaluate c vec_scanner (suc (length batches)) clock plan
                (record { schema = schema; iter = batches }),
          m',
        )
