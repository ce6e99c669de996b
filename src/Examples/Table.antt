-- ===== src/Examples/Table.antt =====
-- A table of two batches, and what is read of it.
use ematix_probe.Prelude.{
  ℕ, zero, suc, ℤ, pos, ◌≡◌, refl, String, Option, none, some, List, [], ◌∷◌, string_eq, int_eq,
}
use ematix_probe.Data.{Assertion, AssertionResult}
use ematix_probe.Crates.{ok, TimeUnit}
use ematix_probe.Scan.Acc.{CompositeKeyPart}
use ematix_probe.Scan.Build.{column_index, group_columns}
use ematix_probe.Scan.Cells.{cells_from}
use ematix_probe.Scan.Update.{
  int64_column, string_column, timestamp_column, row_keys, key_columns, downcast_key, keys_from,
  key_at, key_part, typed_values,
}
use ematix_probe.Scan.Run.{gather, outcome_of}
use ematix_probe.Scan.Arms.{number_column, null_column}
use ematix_probe.Scan.Decide.{Decides}
use ematix_probe.Examples.Numbers.{Thousandths, thousandths}
use ematix_probe.Examples.Arrow.{ColumnType, Column, Batch, Schema, arrow}

abbrev pub cell {ℓ} : {A : Type ℓ} → List (Option A) → ℕ → Option A
cell [] i = none
cell (c ∷ cs) zero = c
cell (c ∷ cs) (suc i) = cell cs i

abbrev pub table : Schema
table =
    ("id", ColumnType.int64)
    ∷ ("name", ColumnType.utf8)
    ∷ ("price", ColumnType.float64)
    ∷ ("seen_at", ColumnType.seconds)
    ∷ []

abbrev pub batch :
    ℕ → List (Option ℤ) → List (Option String) → List (Option Thousandths) → List (Option ℤ) → Batch
batch n ids names prices times = record {
  rows = n;
  columns =
      ("id", Column.ints (cell ids))
      ∷ ("name", Column.strings (cell names))
      ∷ ("price", Column.floats (cell prices))
      ∷ ("seen_at", Column.times (cell times))
      ∷ [];
}

abbrev pub first : Batch
first =
    batch 2 (some (pos 1) ∷ none ∷ []) (some "a" ∷ some "b" ∷ []) (some (some 1500) ∷ none ∷ [])
      (some (pos 10) ∷ some (pos 30) ∷ [])

abbrev pub second : Batch
second = batch 1 (some (pos 2) ∷ []) (some "a" ∷ []) (some (some 500) ∷ []) (none ∷ [])

abbrev pub batches : List Batch
batches = first ∷ second ∷ []

abbrev pub ids : List (Option ℤ)
ids = some (pos 1) ∷ none ∷ some (pos 2) ∷ []

abbrev pub names : List (Option String)
names = some "a" ∷ some "b" ∷ some "a" ∷ []

abbrev pub prices : List (Option Thousandths)
prices = some (some 1500) ∷ none ∷ some (some 500) ∷ []

abbrev pub times : List (Option ℤ)
times = some (pos 10) ∷ some (pos 30) ∷ none ∷ []

abbrev pub keys : List (List CompositeKeyPart)
keys =
    (CompositeKeyPart.i64 (pos 1) ∷ CompositeKeyPart.str "a" ∷ [])
    ∷ (CompositeKeyPart.null ∷ CompositeKeyPart.str "b" ∷ [])
    ∷ (CompositeKeyPart.i64 (pos 2) ∷ CompositeKeyPart.str "a" ∷ [])
    ∷ []

pub ids_read : gather (int64_column arrow 0) batches ≡ some ids
unfolding gather int64_column cells_from
ids_read = refl

pub names_read : gather (string_column arrow 1) batches ≡ some names
unfolding gather string_column cells_from
names_read = refl

pub prices_read : gather (number_column arrow 2) batches ≡ some prices
unfolding gather number_column typed_values cells_from
prices_read = refl

pub times_read : gather (timestamp_column arrow TimeUnit.second 3) batches ≡ some times
unfolding gather timestamp_column cells_from
times_read = refl

pub keys_read : gather (row_keys arrow (0 ∷ 1 ∷ [])) batches ≡ some keys
unfolding gather row_keys key_columns downcast_key keys_from key_at key_part
keys_read = refl

pub nulls_read : gather (null_column arrow 0) batches ≡ some (1 ∷ 0 ∷ [])
unfolding gather null_column
nulls_read = refl

pub rows_read : gather (λ b. some (arrow.num_rows b ∷ [])) batches ≡ some (2 ∷ 1 ∷ [])
unfolding gather
rows_read = refl

-- the two key columns
pub key_columns_found : group_columns arrow table ("id" ∷ "name" ∷ []) [] ≡ ok (0 ∷ 1 ∷ [])
unfolding group_columns column_index
key_columns_found = refl

-- the outcome of one assertion on the table, as the fourth of a plan
abbrev pub OutcomeOf : Assertion Thousandths ColumnType → Type 0 → Type 0
OutcomeOf a P =
    (r : AssertionResult Thousandths) × (outcome_of arrow (some 60) 3 a table batches ≡ some r)
    × Decides 3 r P
