-- ===== src/Examples/Adapters.antt =====
-- A database and a file of two batches, and the theorems on the data adapters applied to them.
use ematix_probe.Prelude.{
  ℕ, suc, ◌≡◌, ◌↔◌, inl, refl, String, false, Option, none, some, List, [], ◌∷◌, arith,
}
use ematix_probe.Message.{lit, str}
use ematix_probe.Adapter.{AdapterError, raised}
use ematix_probe.Data.{Assertion, ProbePlan}
use ematix_probe.Crates.{Result, ok, err}
use ematix_probe.Blocking.{Reply, replied, unwound, Mutex, unlocked}
use ematix_probe.Scan.Total.{ResultsOf}
use ematix_probe.Sources.DuckDb.{DuckDb, execute_duckdb, execute_setup}
use ematix_probe.Sources.DuckDb.Poison.{is_poisoned, execute-poisons, Panics}
use ematix_probe.Sources.Parquet.{ParquetCrate}
use ematix_probe.Sources.Parquet.Adapter.{execute_parquet}
use ematix_probe.Sources.Parquet.Pulls.{broken}
use ematix_probe.Sources.Parquet.Streams.{execute_parquet-Breaks}
use ematix_probe.Sources.Agreement.{execute-execute_parquet}
use ematix_probe.Python.{PyRunReport, report_verdict}
use ematix_probe.Python.Probes.{PyResult, run_parquet_probe}
use ematix_probe.Python.Reports.{AllPass, run_parquet_probe-reports}
use ematix_probe.Examples.Numbers.{Thousandths, thousandths, thousandths-IsIeee}
use ematix_probe.Examples.Arrow.{ColumnType, Batch, Schema, arrow}
use ematix_probe.Examples.Arrow.Laws.{arrow-IsArrow, batch_schema_lem}
use ematix_probe.Examples.Table.{table, first, second, batches}

abbrev plan : String → ProbePlan Thousandths ColumnType
plan name = record {
  schema = none;
  table = name;
  assertions = Assertion.unique "id" ∷ Assertion.not_null "name" ∷ [];
}

abbrev clock : ℕ → Option ℕ
clock i = some 60

-- the connection counts its calls
abbrev database : (ℕ → Reply (List Batch) × ℕ) → DuckDb Thousandths ℕ Unit Unit Schema Batch
database collected = record {
  open_path = λ path. replied (ok 0);
  execute_batch = λ sql n. (replied (ok tt), suc n);
  prepare = λ sql n. (replied (ok tt), suc n);
  query_arrow = λ stmt n. (replied (ok tt), suc n);
  get_schema = λ stream. table;
  collect = λ stream. collected;
}

abbrev holding : DuckDb Thousandths ℕ Unit Unit Schema Batch
holding = database (λ n. (replied batches, suc n))

abbrev panicking : DuckDb Thousandths ℕ Unit Unit Schema Batch
panicking = database (λ n. (unwound "boom", suc n))

-- a reader is the batches that are left, and how they end
abbrev next_of : Option String → List Batch → Reply (Option (Result String Batch)) × List Batch
next_of none [] = (replied none, [])
next_of (some e) [] = (replied (some (err e)), [])
next_of end (b ∷ bs) = (replied (some (ok b)), bs)

-- the state counts the calls
abbrev files : Option String → ParquetCrate ℕ Unit Unit (List Batch) Schema Batch
files end = record {
  open_file = λ path w. (replied (ok tt), suc w);
  try_new = λ file w. (replied (ok tt), suc w);
  build = λ builder w. (replied (ok batches), suc w);
  schema = λ r. table;
  next = next_of end;
}

execute-execute_parquet_example :
    ((execute_duckdb arrow holding clock (plan "items") (unlocked 5)).0
      ≡ (execute_parquet arrow
          (files none)
          3
          clock
          (plan "ignored")
          (record { path = "items.parquet" })
          7).0)
    × ((execute_duckdb arrow holding clock (plan "items") (unlocked 5)).1.poisoned ≡ false)
execute-execute_parquet_example =
    execute-execute_parquet arrow holding (files none) 3 clock (plan "items") (plan "ignored")
      (unlocked 5) (record { path = "items.parquet" }) 7 batches batches (omega arith) refl refl
      (record {
        stmt = tt;
        stream = tt;
        is_prepared = refl;
        is_streamed = refl;
        is_collected = refl;
        has_schema = refl;
      })
      (record { file = tt; builder = tt; is_opened = refl; is_parquet = refl; is_built = refl })
      (refl, (refl, refl))

execute-poisons_example :
    (m' : Mutex ℕ) × (execute_duckdb arrow panicking clock (plan "items") (unlocked 5)
      ≡ (raised (AdapterError.connection (lit "spawn_blocking join: " ∷ str "boom" ∷ [])), m'))
    × ((clock' : ℕ → Option ℕ) (plan' : ProbePlan Thousandths ColumnType)
        → execute_duckdb arrow panicking clock' plan' m' ≡ (is_poisoned, m'))
    × ((sql : String) → execute_setup panicking sql m' ≡ (is_poisoned, m'))
execute-poisons_example =
    execute-poisons arrow panicking clock (plan "items") (unlocked 5) "boom" refl
      (Panics.in_collect tt tt refl refl refl)

execute_parquet-Breaks_example :
    (execute_parquet arrow
      (files (some "bad page"))
      3
      clock
      (plan "ignored")
      (record { path = "items.parquet" })
      7).0
    ≡ raised (broken (inl "bad page"))
execute_parquet-Breaks_example =
    execute_parquet-Breaks arrow (files (some "bad page")) arrow-IsArrow thousandths-IsIeee 3 clock
      (plan "ignored") (record { path = "items.parquet" }) 7 batches batches (inl "bad page")
      (omega arith)
      (record { file = tt; builder = tt; is_opened = refl; is_parquet = refl; is_built = refl })
      (refl, (refl, refl)) (batch_schema_lem first, (batch_schema_lem second, tt))

run_parquet_probe-reports_example :
    (report : PyRunReport Thousandths) × (run_parquet_probe
        (replied (ok tt))
        arrow
        (files none)
        3
        clock
        "items.parquet"
        (plan "ignored")
        7
      ≡ PyResult.value report)
    × ResultsOf arrow arrow-IsArrow clock 0 table batches
        (plan "ignored").assertions
        report.assertions
    × ((report_verdict report ≡ "pass") ↔ AllPass report.assertions)
run_parquet_probe-reports_example =
    run_parquet_probe-reports arrow arrow-IsArrow thousandths-IsIeee (files none) 3 clock
      "items.parquet" (plan "ignored") 7 tt tt batches batches refl refl
      (record { file = tt; builder = tt; is_opened = refl; is_parquet = refl; is_built = refl })
      (refl, (refl, refl)) (batch_schema_lem first, (batch_schema_lem second, tt)) (omega arith)
      (omega arith) (tt, (tt, tt))
