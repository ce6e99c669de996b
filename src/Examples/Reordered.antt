-- ===== src/Examples/Reordered.antt =====
-- The table with its batches the other way round, and the theorem on the order of rows applied to it.
use ematix_probe.Prelude.{
  ℕ, ℤ, pos, ◌≡◌, refl, inl, inr, Option, none, some, List, [], ◌∷◌, arith, string_eq, int_eq, All,
}
use ematix_probe.Adapter.{returned}
use ematix_probe.Data.{Assertion, AssertionResult, ProbePlan, reduce_verdict, summarise}
use ematix_probe.Data.Alike.{Agree}
use ematix_probe.Scan.Cells.{cells_from}
use ematix_probe.Scan.Update.{int64_column, typed_values}
use ematix_probe.Scan.Build.{build, build_not_null, column_index}
use ematix_probe.Scan.Run.{gather}
use ematix_probe.Scan.Arms.{number_column}
use ematix_probe.Scan.Evaluate.{evaluate, vec_scanner}
use ematix_probe.Scan.Decide.Keyed.{Keyed}
use ematix_probe.Scan.Order.Rearranged.{IsUnordered}
use ematix_probe.Scan.Order.Runs.{evaluate-IsUnordered}
use ematix_probe.Examples.Numbers.{Thousandths, thousandths, thousandths-IsIeee}
use ematix_probe.Examples.Arrow.{ColumnType, Batch, arrow}
use ematix_probe.Examples.Arrow.Laws.{arrow-IsArrow, batch_schema_lem}
use ematix_probe.Examples.Table.{table, first, second, batches, ids, ids_read, prices, prices_read}

abbrev turned : List Batch
turned = second ∷ first ∷ []

abbrev turned_ids : List (Option ℤ)
turned_ids = some (pos 2) ∷ some (pos 1) ∷ none ∷ []

abbrev turned_prices : List (Option Thousandths)
turned_prices = some (some 500) ∷ some (some 1500) ∷ none ∷ []

turned_ids_read : gather (int64_column arrow 0) turned ≡ some turned_ids
unfolding gather int64_column cells_from
turned_ids_read = refl

turned_prices_read : gather (number_column arrow 2) turned ≡ some turned_prices
unfolding gather number_column typed_values cells_from
turned_prices_read = refl

-- distinct numbers, the median of the prices, and a column that is not there
abbrev plan : ProbePlan Thousandths ColumnType
plan = record {
  schema = none;
  table = "items";
  assertions =
      Assertion.unique "id"
      ∷ Assertion.percentile_between "price" (some 500) (some 400) (some 600)
      ∷ Assertion.not_null "nothing"
      ∷ [];
}

abbrev now : ℕ → Option ℕ
now i = some 60

unordered : All (IsUnordered arrow now table batches turned) plan.assertions
unfolding build build_not_null column_index
unordered = (
  inr (
    0,
    Keyed.int64,
    refl,
    refl,
    (ids, turned_ids, ids_read, turned_ids_read, (λ p. ground arith), omega arith, tt),
  ),
  (
    inr (
      2,
      refl,
      refl,
      refl,
      refl,
      (
        prices,
        turned_prices,
        prices_read,
        turned_prices_read,
        (λ p. ground arith),
        omega arith,
        ((λ e. ground arith), (refl, (refl, tt))),
      ),
    ),
    (inl refl, tt),
  ),
)

evaluate-IsUnordered_example :
    (results others : List (AssertionResult Thousandths)) × (evaluate arrow vec_scanner 3 now plan
        (record { schema = table; iter = batches })
      ≡ returned (summarise results))
    × (evaluate arrow vec_scanner 3 now plan (record { schema = table; iter = turned })
        ≡ returned (summarise others))
    × Agree results others
    × (reduce_verdict results ≡ reduce_verdict others)
evaluate-IsUnordered_example =
    evaluate-IsUnordered arrow arrow-IsArrow thousandths-IsIeee now table batches turned vec_scanner
      vec_scanner plan 3 3 (record { schema = table; iter = batches })
      (record { schema = table; iter = turned }) unordered refl refl (refl, (refl, refl))
      (refl, (refl, refl)) (batch_schema_lem first, (batch_schema_lem second, tt))
      (batch_schema_lem second, (batch_schema_lem first, tt)) (omega arith) (omega arith)
      (omega arith) (omega arith)
