-- ===== src/Scan/Decide/Counts.antt =====
-- The `NotNull`, `Between`, `Regex` and `Enum` assertions.
use mathlib.Core.Path.{fun_ext}
use ematix_probe.Prelude.{
  ℕ, ◌+◌, ◌%◌, ◌<◌, ◌≡◌, ◌≢◌, ◌↔◌, refl, String, Bool, true, false, not, Option, some, List, [],
  ◌∷◌, arith, length, count, somes, length-somes-le, count-le-length, All, sum, u64_mod, add_u64,
  contains, contains-to_set, to_set, string_eq,
}
use ematix_probe.Float.{Float}
use ematix_probe.Data.{Assertion, AssertionResult}
use ematix_probe.Crates.{Kind, ok, Crates}
use ematix_probe.Scan.Build.{
  build, build_not_null, build_between, build_regex, build_enum, column_index,
}
use ematix_probe.Scan.Cells.{miss_cells, is_oob}
use ematix_probe.Scan.Update.{string_column}
use ematix_probe.Scan.Finalize.{finalize}
use ematix_probe.Scan.Loops.{miss_cells-count}
use ematix_probe.Scan.Arms.{
  number_column, null_column, add_nulls, not_null-IsArm, between-IsArm, regex-IsArm, enum-IsArm,
}
use ematix_probe.Scan.Run.{gather, run-step, outcome_of}
use ematix_probe.Scan.Decide.{Decides, outcome_of-count}

count-zero_iff {ℓ} :
    {A : Type ℓ} (p : A → Bool) (xs : List A) → (count p xs ≡ 0) ↔ All (λ x. p x ≡ false) xs
count-zero_iff p [] = ground arith
count-zero_iff p (x ∷ xs) = ground (arith, count-zero_iff p xs)

All-not_iff {ℓ} :
    {A : Type ℓ} (p : A → Bool) (xs : List A)
    → All (λ x. not (p x) ≡ false) xs ↔ All (λ x. p x ≡ true) xs
All-not_iff p [] = ground arith
All-not_iff p (x ∷ xs) = ground (arith, All-not_iff p xs)

-- No value misses exactly when each value fits.
miss_cells-zero_iff {ℓ} :
    {A : Type ℓ} (fits : A → Bool) (cells : List (Option A))
    → length cells < u64_mod
    → (miss_cells fits cells 0 ≡ 0) ↔ All (λ v. fits v ≡ true) (somes cells)
miss_cells-zero_iff fits cells h = ground (
  arith,
  miss_cells-count fits cells 0,
  count-zero_iff (λ v. not (fits v)) (somes cells),
  All-not_iff fits (somes cells),
  count-le-length (λ v. not (fits v)) (somes cells),
  length-somes-le cells,
)

add_nulls-sum : (ns : List ℕ) (n : ℕ) → n < u64_mod → add_nulls ns n ≡ (n + sum ns) % u64_mod
add_nulls-sum [] n h = omega arith
add_nulls-sum (k ∷ ns) n h = omega (arith, add_nulls-sum ns (add_u64 n k))

add_nulls-zero_iff : (ns : List ℕ) → sum ns < u64_mod → (add_nulls ns 0 ≡ 0) ↔ (sum ns ≡ 0)
add_nulls-zero_iff ns h = ground (arith, add_nulls-sum ns 0)

module _ {F : Type 0} ⦃fl : Float F⦄ where
  All-oob_iff :
      (low high : F) (xs : List F)
      → All (λ v. is_oob low high v ≡ false) xs
        ↔ All (λ v. (fl.lt v low ≡ false) × (fl.lt high v ≡ false)) xs
  All-oob_iff low high [] = ground arith
  All-oob_iff low high (x ∷ xs) = ground (arith, All-oob_iff low high xs)

  oob-zero_iff :
      (low high : F) (cells : List (Option F))
      → length cells < u64_mod
      → ((0 + count (is_oob low high) (somes cells)) % u64_mod ≡ 0)
        ↔ All (λ v. (fl.lt v low ≡ false) × (fl.lt high v ≡ false)) (somes cells)
  oob-zero_iff low high cells h = ground (
    arith,
    count-zero_iff (is_oob low high) (somes cells),
    All-oob_iff low high (somes cells),
    count-le-length (is_oob low high) (somes cells),
    length-somes-le cells,
  )

set-zero_iff :
    (allowed : List String) (cells : List (Option String))
    → length cells < u64_mod
    → (miss_cells (contains (to_set allowed)) cells 0 ≡ 0)
      ↔ All (λ v. contains allowed v ≡ true) (somes cells)
set-zero_iff allowed cells h =
    rw (fun_ext (contains-to_set allowed)) (miss_cells-zero_iff (contains allowed) cells h)

module _ {F : Type 0} (c : Crates F) ⦃fl : Float F⦄ where
  open c use {Schema, RecordBatch, kind, index_of, field_type, regex_new, is_match}

  module _ (clock : Option ℕ) (i : ℕ) (name : String) (k : ℕ) (schema : Schema)
      (batches : List RecordBatch) (found : index_of schema name ≡ some k) where
    -- On a column of any type that the schema has, where the null counts that arrow reports for
    -- the batches are read and add up to less than 2^64: `NotNull` passes exactly when they add up
    -- to 0, and fails otherwise.
    pub not_null-decides :
        (nulls : List ℕ)
        → gather (null_column c k) batches ≡ some nulls
        → sum nulls < u64_mod
        → (r : AssertionResult F) × (outcome_of c clock i (Assertion.not_null name) schema batches
            ≡ some r)
          × Decides i r (sum nulls ≡ 0)
    unfolding build build_not_null column_index finalize
    not_null-decides nulls read h =
        outcome_of-count c clock i (Assertion.not_null name) schema batches (add_nulls nulls 0) _
          (ground arith) (run-step c (not_null-IsArm c name k) batches nulls 0 tt read) refl
          (add_nulls-zero_iff nulls h)

    -- On a column that the schema has, where the reads of all batches succeed with the cells
    -- given, fewer than 2^64 of them (so its type is numeric if there is a batch): `Between`
    -- passes exactly when no non-null value is below `low` or above `high` in the comparisons of
    -- floats, which a NaN never is, and fails otherwise.
    pub between-decides :
        (low high : F) (cells : List (Option F))
        → gather (number_column c k) batches ≡ some cells
        → length cells < u64_mod
        → (r : AssertionResult F) × (outcome_of c clock i
              (Assertion.between name low high)
              schema
              batches
            ≡ some r)
          × Decides i r (All (λ v. (fl.lt v low ≡ false) × (fl.lt high v ≡ false)) (somes cells))
    unfolding build build_between column_index finalize
    between-decides low high cells read h =
        outcome_of-count c clock i (Assertion.between name low high) schema batches
          ((0 + count (is_oob low high) (somes cells)) % u64_mod) _ (ground arith)
          (run-step c (between-IsArm c name k low high) batches cells 0 (omega arith) read) refl
          (oob-zero_iff low high cells h)

    -- On a Utf8 column that the schema has, with a pattern that compiles, where the reads of all
    -- batches succeed with the cells given, fewer than 2^64 of them: `Regex` passes exactly when
    -- every non-null value matches, and fails otherwise.
    pub regex-decides :
        (pattern' : String) (re : c.Regex) (cells : List (Option String))
        → kind (field_type schema k) ≡ Kind.utf8
        → regex_new pattern' ≡ ok re
        → gather (string_column c k) batches ≡ some cells
        → length cells < u64_mod
        → (r : AssertionResult F) × (outcome_of c clock i
              (Assertion.regex name pattern')
              schema
              batches
            ≡ some r)
          × Decides i r (All (λ v. is_match re v ≡ true) (somes cells))
    unfolding build build_regex column_index finalize
    regex-decides pattern' re cells typed compiled read h =
        outcome_of-count c clock i (Assertion.regex name pattern') schema batches
          (miss_cells (is_match re) cells 0) _ (ground arith)
          (run-step c (regex-IsArm c name k re pattern') batches cells 0 tt read) refl
          (miss_cells-zero_iff (is_match re) cells h)

    -- On a Utf8 column that the schema has, with a list of values that is not empty, where the
    -- reads of all batches succeed with the cells given, fewer than 2^64 of them: `Enum` passes
    -- exactly when every non-null value is in the list, and fails otherwise.
    pub enum-decides :
        (allowed : List String) (cells : List (Option String))
        → allowed ≢ []
        → kind (field_type schema k) ≡ Kind.utf8
        → gather (string_column c k) batches ≡ some cells
        → length cells < u64_mod
        → (r : AssertionResult F) × (outcome_of c clock i
              (Assertion.enum name allowed)
              schema
              batches
            ≡ some r)
          × Decides i r (All (λ v. contains allowed v ≡ true) (somes cells))
    unfolding build build_enum column_index finalize
    enum-decides allowed cells some_value typed read h =
        outcome_of-count c clock i (Assertion.enum name allowed) schema batches
          (miss_cells (contains (to_set allowed)) cells 0) _ (ground arith)
          (run-step c (enum-IsArm c name k (to_set allowed) (length allowed)) batches cells 0 tt
            read)
          refl (set-zero_iff allowed cells h)
