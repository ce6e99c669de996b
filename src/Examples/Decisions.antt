-- ===== src/Examples/Decisions.antt =====
-- What the assertions of the scan path decide about the table.
use ematix_probe.Prelude.{
  ℤ, pos, ◌≡◌, refl, true, false, none, some, List, [], ◌∷◌, arith, somes, length, sum, All,
  Distinct, contains, string_eq, int_eq, get_elem?, ◌-ℤ◌,
}
use ematix_probe.Float.{rank}
use ematix_probe.Data.{Assertion, AssertionResult}
use ematix_probe.Crates.{TimeUnit}
use ematix_probe.Scan.Finalize.{now_secs, ts_to_seconds}
use ematix_probe.Scan.Run.{outcome_of}
use ematix_probe.Scan.Decide.{Decides}
use ematix_probe.Scan.Decide.Unique.{unique_group-decides}
use ematix_probe.Scan.Decide.Keyed.{Keyed, unique-decides, cardinality-decides}
use ematix_probe.Scan.Decide.Counts.{not_null-decides, between-decides, regex-decides, enum-decides}
use ematix_probe.Scan.Decide.Bounds.{AtLeast, AtMost, ListsOnce, row_count-decides}
use ematix_probe.Scan.Decide.Freshness.{IsFresh, freshness-decides}
use ematix_probe.Scan.Decide.Percentile.{IsArranged, percentile-decides}
use ematix_probe.Examples.Numbers.{Thousandths, thousandths, thousandths-IsIeee}
use ematix_probe.Examples.Arrow.{arrow}
use ematix_probe.Examples.Table.{
  table, batches, ids, names, prices, times, keys, ids_read, names_read, prices_read, times_read,
  keys_read, nulls_read, rows_read, key_columns_found, OutcomeOf,
}

-- a name that is there twice
unique-decides_example : OutcomeOf (Assertion.unique "name") (Distinct (somes names))
unique-decides_example =
    unique-decides arrow (some 60) 3 "name" 1 table batches Keyed.utf8 names refl refl names_read
      (omega arith)

-- three keys, one with a null
unique_group-decides_example :
    OutcomeOf (Assertion.unique_group ("id" ∷ "name" ∷ [])) (Distinct keys)
unique_group-decides_example =
    unique_group-decides arrow (some 60) 3 ("id" ∷ "name" ∷ []) (0 ∷ 1 ∷ []) table batches keys
      (λ e. ground arith) key_columns_found keys_read (omega arith)

-- one null
not_null-decides_example : OutcomeOf (Assertion.not_null "id") (sum (1 ∷ 0 ∷ []) ≡ 0)
not_null-decides_example =
    not_null-decides arrow (some 60) 3 "id" 0 table batches refl (1 ∷ 0 ∷ []) nulls_read
      (omega arith)

-- prices from 1 to 2
between-decides_example : OutcomeOf (Assertion.between "price" (some 1000) (some 2000)) (
    All
      (λ v. (thousandths.lt v (some 1000) ≡ false) × (thousandths.lt (some 2000) v ≡ false))
      (somes prices))
between-decides_example =
    between-decides arrow (some 60) 3 "price" 2 table batches refl (some 1000) (some 2000) prices
      prices_read (omega arith)

-- a pattern that one name does not match
regex-decides_example :
    OutcomeOf (Assertion.regex "name" "a") (All (λ v. arrow.is_match "a" v ≡ true) (somes names))
regex-decides_example =
    regex-decides arrow (some 60) 3 "name" 1 table batches refl "a" "a" names refl refl names_read
      (omega arith)

-- names that are all allowed
enum-decides_example :
    OutcomeOf
      (Assertion.enum "name" ("a" ∷ "b" ∷ []))
      (All (λ v. contains ("a" ∷ "b" ∷ []) v ≡ true) (somes names))
enum-decides_example =
    enum-decides arrow (some 60) 3 "name" 1 table batches refl ("a" ∷ "b" ∷ []) names
      (λ e. ground arith) refl names_read (omega arith)

-- three rows
row_count-decides_example :
    OutcomeOf (Assertion.row_count (some (pos 3)) none) (AtLeast (some (pos 3)) 3 × AtMost none 3)
row_count-decides_example =
    row_count-decides arrow (some 60) 3 (some (pos 3)) none table batches refl (2 ∷ 1 ∷ [])
      rows_read (omega arith)

-- two distinct ids
cardinality-decides_example :
    (distinct : List ℤ) × (r : AssertionResult Thousandths) × ListsOnce distinct (somes ids)
    × (outcome_of arrow
          (some 60)
          3
          (Assertion.cardinality_between "id" none (some (pos 1)))
          table
          batches
        ≡ some r)
    × Decides 3 r (AtLeast none (length distinct) × AtMost (some (pos 1)) (length distinct))
cardinality-decides_example =
    cardinality-decides arrow (some 60) 3 none (some (pos 1)) table batches refl "id" 0 refl
      Keyed.int64 ids refl ids_read (omega arith)

-- the newest row is 30 seconds old
freshness-decides_example :
    OutcomeOf
      (Assertion.freshness "seen_at" (pos 30))
      (IsFresh (some 60) TimeUnit.second (pos 30) (somes times))
unfolding now_secs ts_to_seconds ◌-ℤ◌
freshness-decides_example =
    freshness-decides arrow (some 60) 3 "seen_at" (pos 30) TimeUnit.second 3 table batches times
      refl refl refl times_read (omega arith, (omega arith, tt))

-- the median of two prices
percentile-decides_example :
    (sorted : List Thousandths) × (v : Thousandths) × (r : AssertionResult Thousandths) × IsArranged
      thousandths-IsIeee sorted
      (somes prices)
    × (get_elem? sorted (rank {F = Thousandths} (some 500) (length (somes prices))) ≡ some v)
    × (outcome_of arrow
          (some 60)
          3
          (Assertion.percentile_between "price" (some 500) (some 400) (some 600))
          table
          batches
        ≡ some r)
    × Decides 3 r ((thousandths.le (some 400) v ≡ true) × (thousandths.le v (some 600) ≡ true))
percentile-decides_example =
    percentile-decides thousandths-IsIeee arrow (some 60) 3 "price" (some 500) (some 400) (some 600)
      2 table batches prices refl refl refl refl prices_read (λ e. ground arith) (refl, (refl, tt))
      (omega arith)
