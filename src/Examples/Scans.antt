-- ===== src/Examples/Scans.antt =====
-- Runs of the scan path over the table, and the assertions that it refuses.
use ematix_probe.Prelude.{
  ℕ, suc, ◌≡◌, ◌↔◌, sym, refl, none, some, List, [], ◌∷◌, arith, string_eq, int_eq, eqb,
  if◌then◌else◌,
}
use ematix_probe.Message.{Message, lit}
use ematix_probe.Adapter.{AdapterError, returned, raised}
use ematix_probe.Data.{Verdict, Assertion, AssertionResult, ProbePlan, reduce_verdict, summarise}
use ematix_probe.Data.Verdicts.{IsWorst, reduce_verdict-IsWorst}
use ematix_probe.Crates.{ok, err}
use ematix_probe.Scan.Finalize.{pass, error_result}
use ematix_probe.Scan.Evaluate.{Scanner, evaluate, vec_scanner}
use ematix_probe.Scan.Run.{outcome_of}
use ematix_probe.Scan.Decide.Fields.{schema_match-decides}
use ematix_probe.Scan.Errors.{IsRefused}
use ematix_probe.Scan.Errors.Faults.{Fault, IsRefused-iff_Fault}
use ematix_probe.Scan.Errors.Late.{between-unsupported}
use ematix_probe.Scan.Total.{NoNanIn, NoNanIn-gather, ResultsOf, evaluate-returns, evaluate-Raises}
use ematix_probe.Examples.Numbers.{Thousandths, thousandths, thousandths-IsIeee}
use ematix_probe.Examples.Arrow.{ColumnType, Batch, Schema, arrow}
use ematix_probe.Prelude.Counts.{some_injective}
use ematix_probe.Examples.Arrow.Laws.{arrow-IsArrow, batch_schema_lem}
use ematix_probe.Examples.Table.{table, first, second, batches, prices, prices_read, OutcomeOf}

-- a plan of a check that passes, one that fails, one with an unknown column and a percentile
abbrev plan : ProbePlan Thousandths ColumnType
plan = record {
  schema = none;
  table = "items";
  assertions =
      Assertion.unique "id"
      ∷ Assertion.unique "name"
      ∷ Assertion.not_null "nothing"
      ∷ Assertion.percentile_between "price" (some 500) (some 0) (some 1000)
      ∷ [];
}

-- no price in the batches is a NaN
no_nan_price :
    (i : ℕ) → arrow.index_of table "price" ≡ some i → NoNanIn arrow arrow-IsArrow i batches
no_nan_price i found =
    NoNanIn-gather arrow arrow-IsArrow i batches prices
      (rw (sym (some_injective 2 i found)) prices_read) (refl, (refl, tt))

evaluate-returns_example :
    (results : List (AssertionResult Thousandths)) × (evaluate arrow vec_scanner 3
        (λ i. some 60)
        plan
        (record { schema = table; iter = batches })
      ≡ returned (summarise results))
    × ResultsOf arrow arrow-IsArrow (λ i. some 60) 0 table batches plan.assertions results
evaluate-returns_example =
    evaluate-returns arrow arrow-IsArrow thousandths-IsIeee vec_scanner 3 (λ i. some 60) plan
      (record { schema = table; iter = batches }) batches (omega arith) (refl, (refl, refl))
      (batch_schema_lem first, (batch_schema_lem second, tt)) (omega arith)
      (tt, (tt, (tt, ((λ made. no_nan_price), tt))))

-- a scanner that delivers a batch and then fails
abbrev lost : AdapterError Thousandths
lost = AdapterError.query (lit "connection reset" ∷ [])

abbrev failing : Scanner ℕ Schema Batch Thousandths
failing = record {
  schema = λ s. table;
  next_batch = λ s. if eqb s 0 then (ok (some second), suc s) else (err lost, s);
}

evaluate-Raises_example : evaluate arrow failing 3 (λ i. some 60) plan 0 ≡ raised lost
evaluate-Raises_example =
    evaluate-Raises arrow arrow-IsArrow thousandths-IsIeee failing lost 3 (λ i. some 60) plan 0
      (second ∷ []) (omega arith) (refl, refl) (batch_schema_lem second, tt)

-- a pattern for numbers
IsRefused-iff_Fault_example :
    (IsRefused arrow (Assertion.regex "id" "1") table
      ↔ Fault arrow (Assertion.regex "id" "1") table)
    × (Fault arrow (Assertion.regex "id" "1") table
        → (m : Message Thousandths) × (outcome_of arrow none 1
              (Assertion.regex "id" "1")
              table
              batches
            ≡ some (error_result 1 m)))
IsRefused-iff_Fault_example =
    IsRefused-iff_Fault arrow none 1 (Assertion.regex "id" "1") table batches

-- names from 1 to 2
between-unsupported_example :
    (outcome_of arrow none 1 (Assertion.between "name" (some 1000) (some 2000)) table []
      ≡ some (pass 1))
    × ((b : Batch) (bs : List Batch)
        → arrow-IsArrow.batch_schema b ≡ table
        → (m : Message Thousandths) × (outcome_of arrow none 1
              (Assertion.between "name" (some 1000) (some 2000))
              table
              (b ∷ bs)
            ≡ some (error_result 1 m)))
between-unsupported_example =
    between-unsupported arrow arrow-IsArrow "name" (some 1000) (some 2000) 1 table refl refl none 1

-- two fields expected of the four
schema_match-decides_example :
    OutcomeOf
      (Assertion.schema_match (("id", ColumnType.int64) ∷ ("name", ColumnType.utf8) ∷ []))
      (◌≡◌ {A = Schema} (("id", ColumnType.int64) ∷ ("name", ColumnType.utf8) ∷ []) table)
schema_match-decides_example =
    schema_match-decides arrow arrow-IsArrow (some 60) 3
      (("id", ColumnType.int64) ∷ ("name", ColumnType.utf8) ∷ []) table batches (λ e. ground arith)

abbrev result : ℕ → Verdict → AssertionResult Thousandths
result i v = record { assertion_index = i; verdict = v; message = none }

reduce_verdict-IsWorst_example :
    IsWorst
      (reduce_verdict (result 0 Verdict.pass ∷ result 1 Verdict.fail ∷ []))
      (result 0 Verdict.pass ∷ result 1 Verdict.fail ∷ [])
reduce_verdict-IsWorst_example =
    reduce_verdict-IsWorst (result 0 Verdict.pass ∷ result 1 Verdict.fail ∷ [])
