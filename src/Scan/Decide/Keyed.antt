-- ===== src/Scan/Decide/Keyed.antt =====
-- `Unique` and `CardinalityBetween` on the two types of column that they take.
use ematix_probe.Prelude.{
  ℕ, ℤ, ◌<◌, ◌≡◌, ◌&&◌, String, false, Option, some, List, length, somes, is_none, Distinct,
  i64_limit, u64_mod, int_eq, string_eq,
}
use ematix_probe.Float.{Float}
use ematix_probe.Data.{Assertion, AssertionResult}
use ematix_probe.Crates.{Kind, IntType, Crates}
use ematix_probe.Scan.Update.{int64_column, string_column}
use ematix_probe.Scan.Run.{gather, outcome_of}
use ematix_probe.Scan.Decide.{Decides}
use ematix_probe.Scan.Decide.Unique.{unique-int64, unique-utf8}
use ematix_probe.Scan.Decide.Bounds.{
  AtLeast, AtMost, ListsOnce, cardinality-int64, cardinality-utf8,
}

-- The types of column whose values are kept in a set: Int64 and Utf8.
pub data Keyed : Type 0 where
  int64 utf8 : Keyed

abbrev pub ValueOf : Keyed → Type 0
ValueOf Keyed.int64 = ℤ
ValueOf Keyed.utf8 = String

abbrev pub kind_of : Keyed → Kind
kind_of Keyed.int64 = Kind.int IntType.int64
kind_of Keyed.utf8 = Kind.utf8

abbrev pub ListsValues : (t : Keyed) → List (ValueOf t) → List (ValueOf t) → Type 0
ListsValues Keyed.int64 = ListsOnce
ListsValues Keyed.utf8 = ListsOnce

module _ {F : Type 0} (c : Crates F) ⦃fl : Float F⦄ where
  open c use {Schema, RecordBatch, kind, index_of, field_type}

  -- the cells of a column of the type in one batch
  abbrev pub cells_of : (t : Keyed) → ℕ → RecordBatch → Option (List (Option (ValueOf t)))
  cells_of Keyed.int64 = int64_column c
  cells_of Keyed.utf8 = string_column c

  module _ (clock : Option ℕ) (i : ℕ) (name : String) (k : ℕ) (schema : Schema)
      (batches : List RecordBatch) where
    -- On an Int64 or Utf8 column that the schema has, where the reads of all batches succeed with
    -- the cells given, fewer than 2^64 of them: `Unique` passes when the non-null values of all
    -- batches are pairwise distinct and fails when two are equal, with the index given, and never
    -- reports an error.
    pub unique-decides :
        (t : Keyed) (cells : List (Option (ValueOf t)))
        → index_of schema name ≡ some k
        → kind (field_type schema k) ≡ kind_of t
        → gather (cells_of t k) batches ≡ some cells
        → length cells < u64_mod
        → (r : AssertionResult F) × (outcome_of c clock i (Assertion.unique name) schema batches
            ≡ some r)
          × Decides i r (Distinct (somes cells))
    unique-decides Keyed.int64 = unique-int64 c clock i name k schema batches
    unique-decides Keyed.utf8 = unique-utf8 c clock i name k schema batches

  module _ (clock : Option ℕ) (i : ℕ) (low high : Option ℤ) (schema : Schema)
      (batches : List RecordBatch) (bounded : (is_none low && is_none high) ≡ false) (name : String)
      (k : ℕ) (found : index_of schema name ≡ some k) where
    -- With a bound set, on an Int64 or Utf8 column that the schema has, where the reads of all
    -- batches succeed with the cells given, fewer than 2^63 of them: `CardinalityBetween` passes
    -- exactly when the number of distinct non-null values of all batches is at least `low` and at
    -- most `high`, where a bound that is not set asks nothing, and fails otherwise.
    pub cardinality-decides :
        (t : Keyed) (cells : List (Option (ValueOf t)))
        → kind (field_type schema k) ≡ kind_of t
        → gather (cells_of t k) batches ≡ some cells
        → length cells < i64_limit
        → (distinct : List (ValueOf t)) × (r : AssertionResult F) × ListsValues t distinct
            (somes cells)
          × (outcome_of c clock i (Assertion.cardinality_between name low high) schema batches
              ≡ some r)
          × Decides i r (AtLeast low (length distinct) × AtMost high (length distinct))
    cardinality-decides Keyed.int64 =
        cardinality-int64 c clock i low high schema batches bounded name k found
    cardinality-decides Keyed.utf8 =
        cardinality-utf8 c clock i low high schema batches bounded name k found
