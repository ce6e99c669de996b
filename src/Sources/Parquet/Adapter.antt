-- ===== src/Sources/Parquet/Adapter.antt =====
-- `ParquetAdapter::open` and `execute` of adapters/data/parquet.rs.
use ematix_probe.Prelude.{ℕ, String, Option, some, [], ◌∷◌}
use ematix_probe.Message.{lit, str}
use ematix_probe.Float.{Float}
use ematix_probe.Adapter.{AdapterError, and_then}
use ematix_probe.Call.{Call, pure, ◌>>=◌}
use ematix_probe.Crates.{Crates}
use ematix_probe.Blocking.{unlocked, await_blocking, outcome, request}
use ematix_probe.Data.{ProbePlan, RunSummary}
use ematix_probe.Scan.Evaluate.{evaluate}
use ematix_probe.Sources.Parquet.{ParquetCrate, ParquetAdapter, parquet_scanner, open_reader}

module _ (F : Type 0) {W File Builder Reader Schema Batch : Type 0}
    (parquet : ParquetCrate W File Builder Reader Schema Batch) where
  unfoldable pub open_parquet : String → Call W F ParquetAdapter
  open_parquet path = do
    file ←
        request
          (λ e. AdapterError.connection (lit "parquet open " ∷ str path ∷ lit ": " ∷ str e ∷ []))
          (parquet.open_file path)
    builder ←
        request
          (λ e. AdapterError.query (lit "parquet builder for " ∷ str path ∷ lit ": " ∷ str e ∷ []))
          (parquet.try_new file)
    pure (record { path = path })

module _ {F : Type 0} (c : Crates F) ⦃fl : Float F⦄ where
  open c use {DataType, Schema, RecordBatch}

  module _ {W File Builder Reader : Type 0}
      (parquet : ParquetCrate W File Builder Reader Schema RecordBatch) where
    -- `fuel` bounds the batches that are pulled
    unfoldable pub execute_parquet :
        ℕ → (ℕ → Option ℕ) → ProbePlan F DataType → ParquetAdapter → Call W F (RunSummary F)
    unfolding await_blocking and_then
    execute_parquet fuel clock plan adapter w =
        let (reply, w') = open_reader F parquet adapter.path w in
        (
          and_then (outcome (await_blocking reply)) λ (schema, reader).
              evaluate c (parquet_scanner F parquet) fuel clock plan
                (record { schema = schema; reader = unlocked (some reader) }),
          w',
        )
