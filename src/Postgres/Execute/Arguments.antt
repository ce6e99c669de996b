-- ===== src/Postgres/Execute/Arguments.antt =====
-- The checks of adapters/data/postgres.rs that raise an error on vacuous arguments.
use ematix_probe.Prelude.{
  ℕ, ℤ, pos, String, ◌&&◌, Option, none, some, List, [], ◌∷◌, map, length, is_empty, is_none,
  if◌then◌else◌, ltb_ℤ,
}
use ematix_probe.Message.{lit, str, debug_str, nat, int, fixed}
use ematix_probe.Float.{Float}
use ematix_probe.Adapter.{AdapterError}
use ematix_probe.Call.{Call, ◌>>=◌, raise, pure}
use ematix_probe.Data.{ProbePlan, AssertionResult}
use ematix_probe.Postgres.Ident.{quote_ident}
use ematix_probe.Postgres.Pool.{SqlParam, Pool}
use ematix_probe.Postgres.Checks.{
  pass_result, fail_result, judge_count, judge_row_count, placeholders, count_rows, read_age,
}
use ematix_probe.Postgres.Execute.Columns.{table_of}

module _ {F D : Type 0} ⦃fl : Float F⦄ where
  module _ {S : Type 0} (pool : Pool S F) (plan : ProbePlan F D) (idx : ℕ) where
    unfoldable pub run_enum : String → List String → Call S F (AssertionResult F)
    run_enum column allowed =
        if is_empty allowed
        then raise (
            AdapterError.config (
              lit "enum assertion on column "
              ∷ debug_str column
              ∷ lit " has empty `allowed` set"
              ∷ []))
        else do
          bad_count ←
              count_rows pool "enum query failed: "
                (lit "SELECT count(*) FROM "
                  ∷ table_of plan
                  ∷ lit " WHERE "
                  ∷ str (quote_ident column)
                  ∷ lit " NOT IN ("
                  ∷ placeholders 1 (length allowed) (lit ")" ∷ []))
                (map SqlParam.text allowed)
          pure (
              judge_count idx bad_count (
                lit "column "
                ∷ debug_str column
                ∷ lit " has "
                ∷ int bad_count
                ∷ lit " row(s) outside allowed set ("
                ∷ nat (length allowed)
                ∷ lit " value(s))"
                ∷ []))

    unfoldable pub run_row_count : Option ℤ → Option ℤ → Call S F (AssertionResult F)
    run_row_count low high =
        if is_none low && is_none high
        then raise (
            AdapterError.config
              (lit "row_count assertion requires at least one of `low` or `high`" ∷ []))
        else do
          count ←
              count_rows pool "row_count query failed: "
                (lit "SELECT count(*) FROM " ∷ table_of plan ∷ []) []
          pure (judge_row_count idx plan.table low high count)

    -- the match at the end of `run_freshness`
    unfoldable pub judge_age : String → ℤ → Option F → AssertionResult F
    judge_age column within_seconds none = fail_result idx (
        lit "table "
        ∷ debug_str plan.table
        ∷ lit " has no rows; cannot evaluate freshness on column "
        ∷ debug_str column
        ∷ [])
    judge_age column within_seconds (some age) =
        if fl.le age (fl.of_int within_seconds)
        then pass_result idx
        else fail_result idx (
            lit "column "
            ∷ debug_str column
            ∷ lit ": most recent value is "
            ∷ fixed 0 age
            ∷ lit "s old; expected within "
            ∷ int within_seconds
            ∷ lit "s"
            ∷ [])

    unfoldable pub run_freshness : String → ℤ → Call S F (AssertionResult F)
    run_freshness column within_seconds =
        if ltb_ℤ within_seconds (pos 0)
        then raise (
            AdapterError.config (
              lit "freshness assertion on column "
              ∷ debug_str column
              ∷ lit " has negative within_seconds ("
              ∷ int within_seconds
              ∷ lit ")"
              ∷ []))
        else do
          age ← read_age pool (
              lit "SELECT EXTRACT(EPOCH FROM (now() - MAX("
              ∷ str (quote_ident column)
              ∷ lit ")))::double precision FROM "
              ∷ table_of plan
              ∷ [])
          pure (judge_age column within_seconds age)
