-- ===== src/Sources/DuckDb/Reads.antt =====
-- `execute` of adapters/data/duckdb.rs where the database answers.
use ematix_probe.Prelude.{ℕ, ◌≡◌, refl, String, false, Option, List, [], ◌∷◌, arith}
use ematix_probe.Message.{lit, str}
use ematix_probe.Float.{Float}
use ematix_probe.Adapter.{and_then}
use ematix_probe.Crates.{ok, Crates}
use ematix_probe.Blocking.{
  replied, Mutex, attempt, map_err, infallible, await_blocking, with_lock, resume, ◌>>=◌,
}
use ematix_probe.Data.{ProbePlan}
use ematix_probe.Scan.Evaluate.{vec_scanner}
use ematix_probe.Scan.Total.{Delivers}
use ematix_probe.Scan.Delivered.{evaluate_batches, evaluate-evaluate_batches}
use ematix_probe.Sources.DuckDb.Ident.{qualified_table}
use ematix_probe.Sources.DuckDb.{DuckDb, read_table, execute_duckdb}

module _ (F : Type 0) {Schema Batch : Type 0} where
  pub vec_scanner-Delivers :
      (sch : Schema) (bs : List Batch)
      → Delivers {F = F} vec_scanner (record { schema = sch; iter = bs }) bs
  vec_scanner-Delivers sch [] = refl
  vec_scanner-Delivers sch (b ∷ bs) = (refl, vec_scanner-Delivers sch bs)

module _ {F Connection Statement Stream Schema Batch : Type 0}
    (db : DuckDb F Connection Statement Stream Schema Batch) where
  abbrev pub prepared : String → Connection → Connection
  prepared qualified conn = (db.prepare (lit "SELECT * FROM " ∷ str qualified ∷ []) conn).1

  -- The database answers `SELECT *` from the table with a stream of these batches.
  pub record Holds (qualified : String) (conn : Connection) (sch : Schema) (bs : List Batch)
      : Type 0 where
    pub stmt : Statement
    pub stream : Stream
    pub is_prepared :
        (db.prepare (lit "SELECT * FROM " ∷ str qualified ∷ []) conn).0 ≡ replied (ok stmt)
    pub is_streamed : (db.query_arrow stmt (prepared qualified conn)).0 ≡ replied (ok stream)
    pub is_collected :
        (db.collect stream (db.query_arrow stmt (prepared qualified conn)).1).0 ≡ replied bs
    pub has_schema : db.get_schema stream ≡ sch

  pub read_table-Holds :
      (qualified : String) (conn : Connection) (sch : Schema) (bs : List Batch)
      → Holds qualified conn sch bs
      → (read_table db qualified conn).0 ≡ replied (ok (sch, bs))
  unfolding read_table attempt infallible ◌>>=◌ resume map_err
  read_table-Holds qualified conn sch bs h =
      rw (h.is_prepared, read_table, attempt, ◌>>=◌, resume, map_err)
        (rw (h.is_streamed, ◌>>=◌, resume, attempt, map_err)
          (rw (h.is_collected, ◌>>=◌, resume, infallible) (rw h.has_schema refl)))

module _ {F : Type 0} (c : Crates F) ⦃fl : Float F⦄ where
  open c use {DataType, Schema, RecordBatch}

  module _ {Connection Statement Stream : Type 0}
      (db : DuckDb F Connection Statement Stream Schema RecordBatch) where
    pub execute-Holds :
        (clock : ℕ → Option ℕ) (plan : ProbePlan F DataType) (m : Mutex Connection) (sch : Schema)
        (bs : List RecordBatch)
        → m.poisoned ≡ false
        → Holds db (qualified_table plan.schema plan.table) m.inner sch bs
        → ((execute_duckdb c db clock plan m).0 ≡ evaluate_batches c clock sch bs plan.assertions)
          × ((execute_duckdb c db clock plan m).1.poisoned ≡ false)
    unfolding execute_duckdb with_lock await_blocking and_then
    execute-Holds clock plan m sch bs free h =
        let read = read_table-Holds db (qualified_table plan.schema plan.table) m.inner sch bs h in
        (
          rw (free, execute_duckdb, with_lock, read, await_blocking, and_then)
              (evaluate-evaluate_batches c vec_scanner bs (record { schema = sch; iter = bs }) _
                clock plan (omega arith) (vec_scanner-Delivers F sch bs)),
          rw (free, execute_duckdb, with_lock, read) refl,
        )
