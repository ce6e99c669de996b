-- ===== src/Sources/Agreement.antt =====
-- The DuckDB adapter against the Parquet adapter, on the same batches.
use ematix_probe.Prelude.{ℕ, ◌<◌, ◌≡◌, sym, ◌∙◌, false, Option, List, length}
use ematix_probe.Float.{Float}
use ematix_probe.Data.{ProbePlan}
use ematix_probe.Crates.{Crates}
use ematix_probe.Blocking.{Mutex}
use ematix_probe.Sources.DuckDb.Ident.{qualified_table}
use ematix_probe.Sources.DuckDb.{DuckDb, execute_duckdb}
use ematix_probe.Sources.DuckDb.Reads.{Holds, execute-Holds}
use ematix_probe.Sources.Parquet.{ParquetCrate, ParquetAdapter}
use ematix_probe.Sources.Parquet.Adapter.{execute_parquet}
use ematix_probe.Sources.Parquet.Pulls.{Opens, Yields}
use ematix_probe.Sources.Parquet.Streams.{execute_parquet-Yields}

module _ {F : Type 0} (c : Crates F) ⦃fl : Float F⦄ where
  open c use {DataType, Schema, RecordBatch}

  module _ {Connection Statement Stream W File Builder Reader : Type 0}
      (db : DuckDb F Connection Statement Stream Schema RecordBatch)
      (parquet : ParquetCrate W File Builder Reader Schema RecordBatch) where
    -- A table of a DuckDB database whose mutex is free and a Parquet file that hold batches of one
    -- schema, the same in the same order, are judged alike: with the assertions of one plan, whatever
    -- table and schema the plan given to the Parquet adapter names, `execute` of the two adapters
    -- comes to the same, a panic included, when the clock shows the same and the fuel of the Parquet
    -- scan exceeds the number of batches. The mutex stays free.
    pub execute-execute_parquet :
        (fuel : ℕ) (clock : ℕ → Option ℕ) (plan plan' : ProbePlan F DataType) (m : Mutex Connection)
        (adapter : ParquetAdapter) (w : W) (r : Reader) (bs : List RecordBatch)
        → length bs < fuel
        → plan.assertions ≡ plan'.assertions
        → m.poisoned ≡ false
        → Holds db (qualified_table plan.schema plan.table) m.inner (parquet.schema r) bs
        → Opens parquet adapter.path w r
        → Yields parquet r bs
        → ((execute_duckdb c db clock plan m).0
            ≡ (execute_parquet c parquet fuel clock plan' adapter w).0)
          × ((execute_duckdb c db clock plan m).1.poisoned ≡ false)
    execute-execute_parquet fuel clock plan plan' m adapter w r bs more same free h o y =
        let (at_db, still) = execute-Holds c db clock plan m (parquet.schema r) bs free h in
        let at_file = execute_parquet-Yields c parquet fuel clock plan' adapter w r bs more o y in
        (at_db ∙ (rw same (sym at_file)), still)
