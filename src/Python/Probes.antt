-- ===== src/Python/Probes.antt =====
-- The functions of crates/ematix-probe-py/src/lib.rs that run a probe. Each builds a runtime, which may
-- fail, and blocks on an adapter's `execute`.
use ematix_probe.Prelude.{ℕ, String, Option, [], ◌∷◌}
use ematix_probe.Message.{Message, lit, str}
use ematix_probe.Float.{Float}
use ematix_probe.Adapter.{AdapterError, Outcome, returned, raised, panicked, stopped, and_then}
use ematix_probe.Call.{Call, stateless, ◌>>=◌}
use ematix_probe.Crates.{Result, Crates}
use ematix_probe.Blocking.{Reply, answer}
use ematix_probe.Data.{RunSummary}
use ematix_probe.Postgres.Pool.{Pool}
use ematix_probe.Postgres.Deadpool.{Deadpool}
use ematix_probe.Postgres.Connect.{connect}
use ematix_probe.Postgres.Execute.{execute as execute_postgres}
use ematix_probe.Sources.DuckDb.{DuckDb, open_database, execute_setup, execute_duckdb}
use ematix_probe.Sources.Parquet.{ParquetCrate}
use ematix_probe.Sources.Parquet.Adapter.{open_parquet, execute_parquet}
use ematix_probe.Sources.S3.{ObjectStore, TempFiles, open_s3, execute_s3}
use ematix_probe.Python.{PyProbePlan, PyRunReport, to_string}

-- What Python sees of a call: a value, a `RuntimeError` with its text, or pyo3's `PanicException`.
-- `Unended` is a model's loop that ran out of fuel.
pub data PyResult (F A : Type 0) : Type 0 where
  value : A → PyResult F A
  runtime_error : Message F → PyResult F A
  panic_exception : PyResult F A
  unended : PyResult F A

module _ {F A : Type 0} where
  -- `.map_err(|e| PyRuntimeError::new_err(e.to_string()))`
  unfoldable pub to_py : Outcome F A → PyResult F A
  unfolding to_string
  to_py (returned a) = PyResult.value a
  to_py (raised e) = PyResult.runtime_error (to_string e)
  to_py panicked = PyResult.panic_exception
  to_py stopped = PyResult.unended

module _ {F : Type 0} where
  -- `Builder::new_current_thread().enable_all().build()`
  unfoldable pub build_runtime : Reply (Result String Unit) → Outcome F Unit
  unfolding answer
  build_runtime = answer (λ e. AdapterError.connection (lit "tokio runtime: " ∷ str e ∷ []))

module _ {F : Type 0} (runtime : Reply (Result String Unit)) where
  module _ {D S Config DbPool : Type 0} ⦃fl : Float F⦄ (deadpool : Deadpool Config DbPool)
      (calls : DbPool → Pool S F) where
    -- the closure of `run_postgres_probe`
    abbrev postgres_probe : String → PyProbePlan F D → Call S F (RunSummary F)
    postgres_probe url plan = do
      built ← stateless (build_runtime runtime)
      pool ← connect deadpool calls url
      execute_postgres (calls pool) plan

    unfoldable pub run_postgres_probe : String → PyProbePlan F D → S → PyResult F (PyRunReport F)
    unfolding to_py build_runtime
    run_postgres_probe url plan s = to_py (postgres_probe url plan s).0

  module _ {Connection Statement Stream Schema Batch : Type 0}
      (db : DuckDb F Connection Statement Stream Schema Batch) where
    unfoldable pub duckdb_setup : String → String → PyResult F Unit
    unfolding to_py build_runtime and_then
    duckdb_setup path sql = to_py (
        and_then (build_runtime runtime)
          λ built. and_then (open_database db path) λ adapter. (execute_setup db sql adapter).0)

  module _ (c : Crates F) ⦃fl : Float F⦄ where
    open c use {DataType, Schema, RecordBatch}

    module _ {Connection Statement Stream : Type 0}
        (db : DuckDb F Connection Statement Stream Schema RecordBatch) where
      unfoldable pub run_duckdb_probe :
          (ℕ → Option ℕ) → String → PyProbePlan F DataType → PyResult F (PyRunReport F)
      unfolding to_py build_runtime and_then
      run_duckdb_probe clock path plan = to_py (
          and_then (build_runtime runtime) λ built.
            and_then (open_database db path) λ adapter. (execute_duckdb c db clock plan adapter).0)

    module _ {W File ReaderBuilder Reader : Type 0}
        (parquet : ParquetCrate W File ReaderBuilder Reader Schema RecordBatch) where
      -- the closure of `run_parquet_probe`
      abbrev parquet_probe :
          ℕ → (ℕ → Option ℕ) → String → PyProbePlan F DataType → Call W F (RunSummary F)
      parquet_probe fuel clock path plan = do
        built ← stateless (build_runtime runtime)
        adapter ← open_parquet F parquet path
        execute_parquet c parquet fuel clock plan adapter

      unfoldable pub run_parquet_probe :
          ℕ → (ℕ → Option ℕ) → String → PyProbePlan F DataType → W → PyResult F (PyRunReport F)
      unfolding to_py build_runtime
      run_parquet_probe fuel clock path plan w = to_py (parquet_probe fuel clock path plan w).0

      module _ {Builder Store Response Bytes TempFile : Type 0}
          (cloud : ObjectStore W Builder Store Response Bytes)
          (temp : TempFiles W TempFile Bytes) where
        -- the closure of `run_s3_parquet_probe`
        abbrev s3_parquet_probe :
            ℕ
            → (ℕ → Option ℕ)
            → String
            → String
            → String
            → Option String
            → PyProbePlan F DataType
            → Call W F (RunSummary F)
        s3_parquet_probe fuel clock bucket key region endpoint_url plan = do
          built ← stateless (build_runtime runtime)
          adapter ← stateless (open_s3 F cloud bucket key region endpoint_url)
          execute_s3 c cloud temp parquet fuel clock plan adapter

        unfoldable pub run_s3_parquet_probe :
            ℕ
            → (ℕ → Option ℕ)
            → String
            → String
            → String
            → Option String
            → PyProbePlan F DataType
            → W
            → PyResult F (PyRunReport F)
        unfolding to_py build_runtime
        run_s3_parquet_probe fuel clock bucket key region endpoint_url plan w =
            to_py (s3_parquet_probe fuel clock bucket key region endpoint_url plan w).0
