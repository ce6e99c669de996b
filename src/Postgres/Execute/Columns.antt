-- ===== src/Postgres/Execute/Columns.antt =====
-- The checks of adapters/data/postgres.rs that count rows by one condition on a column or its groups.
use ematix_probe.Prelude.{ℕ, String, List, [], ◌∷◌, map, is_empty, if◌then◌else◌}
use ematix_probe.Message.{Piece, lit, str, debug_str, int, float}
use ematix_probe.Float.{Float}
use ematix_probe.Call.{Call, ◌>>=◌, pure}
use ematix_probe.Data.{ProbePlan, AssertionResult}
use ematix_probe.Scan.Finalize.{join, error_result}
use ematix_probe.Postgres.Ident.{quote_ident, qualified_table}
use ematix_probe.Postgres.Pool.{SqlParam, Pool}
use ematix_probe.Postgres.Checks.{judge_count, count_rows}

module _ {F D : Type 0} ⦃fl : Float F⦄ where
  -- the table of a plan, as the SQL names it
  abbrev pub table_of : ProbePlan F D → Piece F
  table_of plan = str (qualified_table plan.schema plan.table)

  module _ {S : Type 0} (pool : Pool S F) (plan : ProbePlan F D) (idx : ℕ) where
    unfoldable pub run_not_null : String → Call S F (AssertionResult F)
    run_not_null column = do
      null_count ←
          count_rows pool "not_null query failed: "
            (lit "SELECT count(*) FROM "
              ∷ table_of plan
              ∷ lit " WHERE "
              ∷ str (quote_ident column)
              ∷ lit " IS NULL"
              ∷ [])
            []
      pure (
          judge_count idx null_count (
            lit "column "
            ∷ debug_str column
            ∷ lit " has "
            ∷ int null_count
            ∷ lit " NULL row(s); expected 0"
            ∷ []))

    unfoldable pub run_unique : String → Call S F (AssertionResult F)
    run_unique column = do
      dup_value_count ←
          count_rows pool "unique query failed: "
            (lit "SELECT count(*) FROM (SELECT "
              ∷ str (quote_ident column)
              ∷ lit " FROM "
              ∷ table_of plan
              ∷ lit " GROUP BY "
              ∷ str (quote_ident column)
              ∷ lit " HAVING count(*) > 1) d"
              ∷ [])
            []
      pure (
          judge_count idx dup_value_count (
            lit "column "
            ∷ debug_str column
            ∷ lit " has "
            ∷ int dup_value_count
            ∷ lit " value(s) appearing more than once"
            ∷ []))

    unfoldable pub run_unique_group : List String → Call S F (AssertionResult F)
    run_unique_group columns =
        if is_empty columns
        then pure (error_result idx (lit "UniqueGroup requires at least one column" ∷ []))
        else do
          let cols = map quote_ident columns
          dup_count ←
              count_rows pool "unique-group query failed: "
                (lit "SELECT count(*) FROM (SELECT "
                  ∷ join cols (
                      lit " FROM "
                      ∷ table_of plan
                      ∷ lit " GROUP BY "
                      ∷ join cols (lit " HAVING count(*) > 1) d" ∷ [])))
                []
          pure (
              judge_count idx dup_count (
                lit "composite key ("
                ∷ join columns
                    (lit ") has " ∷ int dup_count ∷ lit " duplicated combination(s)" ∷ [])))

    unfoldable pub run_between : String → F → F → Call S F (AssertionResult F)
    run_between column low high = do
      oor_count ←
          count_rows pool "between query failed: "
            (lit "SELECT count(*) FROM "
              ∷ table_of plan
              ∷ lit " WHERE "
              ∷ str (quote_ident column)
              ∷ lit " < $1::float8 OR "
              ∷ str (quote_ident column)
              ∷ lit " > $2::float8"
              ∷ [])
            (SqlParam.float8 low ∷ SqlParam.float8 high ∷ [])
      pure (
          judge_count idx oor_count (
            lit "column "
            ∷ debug_str column
            ∷ lit " has "
            ∷ int oor_count
            ∷ lit " row(s) outside ["
            ∷ float low
            ∷ lit ", "
            ∷ float high
            ∷ lit "]"
            ∷ []))

    unfoldable pub run_regex : String → String → Call S F (AssertionResult F)
    run_regex column pattern' = do
      bad_count ←
          count_rows pool "regex query failed: "
            (lit "SELECT count(*) FROM "
              ∷ table_of plan
              ∷ lit " WHERE "
              ∷ str (quote_ident column)
              ∷ lit " !~ $1"
              ∷ [])
            (SqlParam.text pattern' ∷ [])
      pure (
          judge_count idx bad_count (
            lit "column "
            ∷ debug_str column
            ∷ lit " has "
            ∷ int bad_count
            ∷ lit " row(s) not matching pattern "
            ∷ debug_str pattern'
            ∷ []))
