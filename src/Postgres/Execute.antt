-- ===== src/Postgres/Execute.antt =====
-- `PostgresAdapter::execute` of adapters/data/postgres.rs and the checks that it runs, passed on.
mod Columns
mod Arguments
unfoldable pub use Columns.*
unfoldable pub use Arguments.*
use ematix_probe.Prelude.{ℕ, suc, List, [], ◌∷◌}
use ematix_probe.Message.{lit, debug_str}
use ematix_probe.Float.{Float}
use ematix_probe.Call.{Call, ◌>>=◌, pure}
use ematix_probe.Data.{Assertion, ProbePlan, AssertionResult, RunSummary, summarise}
use ematix_probe.Scan.Finalize.{error_result}
use ematix_probe.Postgres.Pool.{Pool}

module _ {F D : Type 0} ⦃fl : Float F⦄ where
  module _ {S : Type 0} (pool : Pool S F) (plan : ProbePlan F D) (idx : ℕ) where
    -- the match of `execute` on one assertion
    unfoldable pub run_assertion : Assertion F D → Call S F (AssertionResult F)
    run_assertion (Assertion.not_null column) = run_not_null pool plan idx column
    run_assertion (Assertion.unique column) = run_unique pool plan idx column
    run_assertion (Assertion.unique_group columns) = run_unique_group pool plan idx columns
    run_assertion (Assertion.between column low high) = run_between pool plan idx column low high
    run_assertion (Assertion.regex column pattern') = run_regex pool plan idx column pattern'
    run_assertion (Assertion.enum column allowed) = run_enum pool plan idx column allowed
    run_assertion (Assertion.row_count low high) = run_row_count pool plan idx low high
    run_assertion (Assertion.freshness column within_seconds) =
        run_freshness pool plan idx column within_seconds
    run_assertion (Assertion.percentile_between column p low high) = pure (
        error_result idx (
          lit "Postgres adapter does not implement PercentileBetween on column "
          ∷ debug_str column
          ∷ lit " — use a scan-path source (DuckDB / Parquet) for this assertion in v0.1"
          ∷ []))
    run_assertion (Assertion.cardinality_between column low high) = pure (
        error_result idx (
          lit "Postgres adapter does not implement CardinalityBetween on column "
          ∷ debug_str column
          ∷ lit " — use a scan-path source (DuckDB / Parquet) for this assertion in v0.1"
          ∷ []))
    run_assertion (Assertion.schema_match fields) = pure (
        error_result idx (
          lit
            "Postgres adapter does not implement SchemaMatch — use a scan-path source (DuckDB / Parquet) for this assertion in v0.1"
          ∷ []))

  module _ {S : Type 0} (pool : Pool S F) (plan : ProbePlan F D) where
    -- the loop over `plan.assertions.iter().enumerate()` from index `idx` on
    unfoldable pub run_from : ℕ → List (Assertion F D) → Call S F (List (AssertionResult F))
    run_from idx [] = pure []
    run_from idx (a ∷ assertions) = do
      result ← run_assertion pool plan idx a
      results ← run_from (suc idx) assertions
      pure (result ∷ results)

    unfoldable pub execute : Call S F (RunSummary F)
    execute = do results ← run_from 0 plan.assertions; pure (summarise results)
