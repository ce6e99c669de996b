-- ===== src/Scan/Decide/Bounds.antt =====
-- The `RowCount` and `CardinalityBetween` assertions.
use ematix_probe.Prelude.{
  ℕ, ℤ, pos, ◌+◌, ◌≤◌, ◌<◌, ◌≡◌, refl, ap, ◌∙◌, String, Bool, true, false, ◌&&◌, Option, none, some,
  List, [], ◌∷◌, arith, length, somes, sum, is_none, Distinct, ◌≤ℤ◌, i64_limit, as_i64,
  as_i64_of_lt, add_i64_of_lt, contains, Eq, int_eq, string_eq, if◌then◌else◌, HashSet,
}
use ematix_probe.Float.{Float}
use ematix_probe.Data.{Assertion, AssertionResult}
use ematix_probe.Crates.{Kind, IntType, Crates}
use ematix_probe.Scan.Build.{build, build_row_count, build_cardinality_between, column_index}
use ematix_probe.Scan.Cells.{cardinality_cells}
use ematix_probe.Scan.Update.{int64_column, string_column}
use ematix_probe.Scan.Finalize.{finalize, finalize_row_count, finalize_cardinality}
use ematix_probe.Scan.Loops.{cardinality_cells-Distinct, contains-cardinality_cells}
use ematix_probe.Scan.Arms.{add_rows, row_count-IsArm, cardinality_i64-IsArm, cardinality_str-IsArm}
use ematix_probe.Scan.Run.{gather, run-step, outcome_of}
use ematix_probe.Scan.Decide.{Decides, outcome_of-run}

-- `count` is at least `low` and at most `high`, where a bound that is `None` asks nothing.
abbrev pub AtLeast : Option ℤ → ℕ → Type 0
AtLeast none n = Unit
AtLeast (some lo) n = lo ≤ℤ pos n

abbrev pub AtMost : Option ℤ → ℕ → Type 0
AtMost none n = Unit
AtMost (some hi) n = pos n ≤ℤ hi

add_rows-sum :
    (ns : List ℕ) (n : ℕ) → n + sum ns < i64_limit → add_rows ns (pos n) ≡ pos (n + sum ns)
add_rows-sum [] n h = ap pos (omega arith)
add_rows-sum (k ∷ ns) n h =
    rw (add_i64_of_lt n k (omega arith), add_rows-sum ns (n + k) (omega arith))
      (ap pos (omega arith))

module _ (F : Type 0) where
  row_count-Decides :
      (i : ℕ) (low high : Option ℤ) (n : ℕ)
      → Decides {F = F} i (finalize_row_count i low high (pos n)) (AtLeast low n × AtMost high n)
  unfolding finalize_row_count
  row_count-Decides i none none n = ground arith
  row_count-Decides i none (some hi) n = ground arith
  row_count-Decides i (some lo) none n = ground arith
  row_count-Decides i (some lo) (some hi) n = ground arith

  cardinality-Decides :
      (i : ℕ) (name : String) (low high : Option ℤ) (n : ℕ)
      → Decides {F = F} i
          (finalize_cardinality i name low high (pos n))
          (AtLeast low n × AtMost high n)
  unfolding finalize_cardinality
  cardinality-Decides i name none none n = ground arith
  cardinality-Decides i name none (some hi) n = ground arith
  cardinality-Decides i name (some lo) none n = ground arith
  cardinality-Decides i name (some lo) (some hi) n = ground arith

module _ {A : Type 0} ⦃e : Eq A⦄ where
  -- `distinct` lists each value of `values` once, and nothing else.
  abbrev pub ListsOnce : List A → List A → Type 0
  ListsOnce distinct values =
      Distinct distinct × ((a : A) → contains distinct a ≡ contains values a)

  cardinality_cells-ListsOnce :
      (cells : List (Option A)) → ListsOnce (cardinality_cells cells []) (somes cells)
  cardinality_cells-ListsOnce cells = (
    cardinality_cells-Distinct cells [] tt,
    λ a. contains-cardinality_cells cells [] a ∙ same (contains (somes cells) a),
  )
    where
      same : (b : Bool) → (if b then true else false) ≡ b
      same true = refl
      same false = refl

  length-cardinality_cells-le :
      (cells : List (Option A)) (seen : HashSet A)
      → length (cardinality_cells cells seen) ≤ length seen + length cells
  unfolding cardinality_cells
  length-cardinality_cells-le [] seen = omega arith
  length-cardinality_cells-le (none ∷ cells) seen =
      omega (arith, length-cardinality_cells-le cells seen)
  length-cardinality_cells-le (some v ∷ cells) seen =
      ground (
        arith,
        length-cardinality_cells-le cells seen,
        length-cardinality_cells-le cells (v ∷ seen),
      )

  as_i64-cardinality :
      (cells : List (Option A))
      → length cells < i64_limit
      → as_i64 (length (cardinality_cells cells [])) ≡ pos (length (cardinality_cells cells []))
  as_i64-cardinality cells h =
      as_i64_of_lt (length (cardinality_cells cells []))
        (omega (arith, length-cardinality_cells-le cells []))

module _ {F : Type 0} (c : Crates F) ⦃fl : Float F⦄ where
  open c use {Schema, RecordBatch, kind, index_of, field_type, num_rows}

  module _ (clock : Option ℕ) (i : ℕ) (low high : Option ℤ) (schema : Schema)
      (batches : List RecordBatch) (bounded : (is_none low && is_none high) ≡ false) where
    -- With a bound set, where the rows of all batches are fewer than 2^63: `RowCount` passes
    -- exactly when the rows of all batches together are at least `low` and at most `high`, where a
    -- bound that is not set asks nothing, and fails otherwise.
    pub row_count-decides :
        (rows : List ℕ)
        → gather (λ b. some (num_rows b ∷ [])) batches ≡ some rows
        → sum rows < i64_limit
        → (r : AssertionResult F) × (outcome_of c clock i
              (Assertion.row_count low high)
              schema
              batches
            ≡ some r)
          × Decides i r (AtLeast low (sum rows) × AtMost high (sum rows))
    unfolding build build_row_count finalize
    row_count-decides rows read h = (
      finalize_row_count i low high (pos (sum rows)),
      outcome_of-run c clock i (Assertion.row_count low high) schema batches (ground arith)
          (run-step c (row_count-IsArm c low high) batches rows (pos 0) tt read)
          (ap (λ n. some (finalize_row_count i low high n))
            (add_rows-sum rows 0 (omega arith) ∙ ap pos (omega arith))),
      row_count-Decides F i low high (sum rows),
    )

    module _ (name : String) (k : ℕ) (found : index_of schema name ≡ some k) where
      -- With a bound set, on an Int64 column that the schema has, where the reads of all batches
      -- succeed with the cells given, fewer than 2^63 of them: `CardinalityBetween` passes exactly
      -- when the number of distinct non-null values of all batches is at least `low` and at most
      -- `high`, where a bound that is not set asks nothing, and fails otherwise.
      pub cardinality-int64 :
          (cells : List (Option ℤ))
          → kind (field_type schema k) ≡ Kind.int IntType.int64
          → gather (int64_column c k) batches ≡ some cells
          → length cells < i64_limit
          → (distinct : List ℤ) × (r : AssertionResult F) × ListsOnce distinct (somes cells)
            × (outcome_of c clock i (Assertion.cardinality_between name low high) schema batches
                ≡ some r)
            × Decides i r (AtLeast low (length distinct) × AtMost high (length distinct))
      unfolding build build_cardinality_between column_index finalize
      cardinality-int64 cells typed read h =
          let seen = cardinality_cells cells [] in
          (
            seen,
            finalize_cardinality i name low high (pos (length seen)),
            cardinality_cells-ListsOnce cells,
            outcome_of-run c clock i (Assertion.cardinality_between name low high) schema batches
                (ground arith)
                (run-step c (cardinality_i64-IsArm c name k low high) batches cells [] tt read)
                (ap (λ n. some (finalize_cardinality i name low high n))
                  (as_i64-cardinality cells h)),
            cardinality-Decides F i name low high (length seen),
          )

      -- With a bound set, on a Utf8 column that the schema has, where the reads of all batches
      -- succeed with the cells given, fewer than 2^63 of them: `CardinalityBetween` passes exactly
      -- when the number of distinct non-null values of all batches is at least `low` and at most
      -- `high`, where a bound that is not set asks nothing, and fails otherwise.
      pub cardinality-utf8 :
          (cells : List (Option String))
          → kind (field_type schema k) ≡ Kind.utf8
          → gather (string_column c k) batches ≡ some cells
          → length cells < i64_limit
          → (distinct : List String) × (r : AssertionResult F) × ListsOnce distinct (somes cells)
            × (outcome_of c clock i (Assertion.cardinality_between name low high) schema batches
                ≡ some r)
            × Decides i r (AtLeast low (length distinct) × AtMost high (length distinct))
      unfolding build build_cardinality_between column_index finalize
      cardinality-utf8 cells typed read h =
          let seen = cardinality_cells cells [] in
          (
            seen,
            finalize_cardinality i name low high (pos (length seen)),
            cardinality_cells-ListsOnce cells,
            outcome_of-run c clock i (Assertion.cardinality_between name low high) schema batches
                (ground arith)
                (run-step c (cardinality_str-IsArm c name k low high) batches cells [] tt read)
                (ap (λ n. some (finalize_cardinality i name low high n))
                  (as_i64-cardinality cells h)),
            cardinality-Decides F i name low high (length seen),
          )
