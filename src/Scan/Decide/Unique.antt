-- ===== src/Scan/Decide/Unique.antt =====
-- The `Unique` and `UniqueGroup` assertions.
use ematix_probe.Prelude.{
  ℕ, ℤ, ◌<◌, ◌≡◌, ◌↔◌, ◌≢◌, refl, String, false, Option, some, List, [], ◌∷◌, arith, length, somes,
  length-somes-le, All, Distinct, u64_mod, Eq, int_eq, string_eq, list_eq, contains,
}
use ematix_probe.Float.{Float}
use ematix_probe.Data.{Assertion, AssertionResult}
use ematix_probe.Crates.{Kind, IntType, ok, Crates}
use ematix_probe.Scan.Acc.{CompositeKeyPart, part_eq}
use ematix_probe.Scan.Build.{build, build_unique, build_unique_group, column_index, group_columns}
use ematix_probe.Scan.Cells.{insert_keys, unique_cells}
use ematix_probe.Scan.Update.{int64_column, string_column, row_keys}
use ematix_probe.Scan.Finalize.{finalize}
use ematix_probe.Scan.Loops.{
  unique_cells-insert_keys, insert_keys-repeats, repeats-zero_iff, repeats-le-length,
}
use ematix_probe.Scan.Arms.{unique_i64-IsArm, unique_str-IsArm, unique_composite-IsArm}
use ematix_probe.Scan.Run.{gather, run-step, outcome_of}
use ematix_probe.Scan.Decide.{Decides, outcome_of-count}

module _ {A : Type 0} ⦃e : Eq A⦄ where
  none_seen : (keys : List A) → All (λ y. contains [] y ≡ false) keys
  none_seen [] = tt
  none_seen (k ∷ keys) = (refl, none_seen keys)

  -- The count of the repeated keys is 0 exactly when the keys are distinct.
  dup_count-zero_iff :
      (keys : List A) → length keys < u64_mod → ((insert_keys keys ([], 0)).1 ≡ 0) ↔ Distinct keys
  dup_count-zero_iff keys h = ground (
    arith,
    insert_keys-repeats keys [] 0,
    repeats-le-length keys [],
    repeats-zero_iff keys [],
    none_seen keys,
  )

  unique_cells-zero_iff :
      (cells : List (Option A))
      → length cells < u64_mod
      → ((unique_cells cells ([], 0)).1 ≡ 0) ↔ Distinct (somes cells)
  unique_cells-zero_iff cells h =
      rw unique_cells-insert_keys
        (dup_count-zero_iff (somes cells) (omega (arith, length-somes-le cells)))

module _ {F : Type 0} (c : Crates F) ⦃fl : Float F⦄ where
  open c use {Schema, RecordBatch, kind, index_of, field_type}

  module _ (clock : Option ℕ) (i : ℕ) (name : String) (k : ℕ) (schema : Schema)
      (batches : List RecordBatch) where
    -- On an Int64 column that the schema has, where the reads of all batches succeed with the
    -- cells given, fewer than 2^64 of them: `Unique` passes when the non-null values of all
    -- batches are pairwise distinct and fails when two are equal, with the index given, and never
    -- reports an error.
    pub unique-int64 :
        (cells : List (Option ℤ))
        → index_of schema name ≡ some k
        → kind (field_type schema k) ≡ Kind.int IntType.int64
        → gather (int64_column c k) batches ≡ some cells
        → length cells < u64_mod
        → (r : AssertionResult F) × (outcome_of c clock i (Assertion.unique name) schema batches
            ≡ some r)
          × Decides i r (Distinct (somes cells))
    unfolding build build_unique column_index finalize
    unique-int64 cells found typed read h =
        outcome_of-count c clock i (Assertion.unique name) schema batches
          (unique_cells cells ([], 0)).1 _ (ground arith)
          (run-step c (unique_i64-IsArm c name k) batches cells ([], 0) tt read) refl
          (unique_cells-zero_iff cells h)

    -- On a Utf8 column that the schema has, where the reads of all batches succeed with the cells
    -- given, fewer than 2^64 of them: `Unique` passes when the non-null values of all batches are
    -- pairwise distinct and fails when two are equal, with the index given, and never reports an
    -- error.
    pub unique-utf8 :
        (cells : List (Option String))
        → index_of schema name ≡ some k
        → kind (field_type schema k) ≡ Kind.utf8
        → gather (string_column c k) batches ≡ some cells
        → length cells < u64_mod
        → (r : AssertionResult F) × (outcome_of c clock i (Assertion.unique name) schema batches
            ≡ some r)
          × Decides i r (Distinct (somes cells))
    unfolding build build_unique column_index finalize
    unique-utf8 cells found typed read h =
        outcome_of-count c clock i (Assertion.unique name) schema batches
          (unique_cells cells ([], 0)).1 _ (ground arith)
          (run-step c (unique_str-IsArm c name k) batches cells ([], 0) tt read) refl
          (unique_cells-zero_iff cells h)

  -- On a list of columns that is not empty and that the build accepted, where the key tuples of
  -- all batches are read, fewer than 2^64 of them: `UniqueGroup` passes exactly when the key
  -- tuples of all rows are pairwise distinct and fails otherwise. A null is a part like any other,
  -- so two rows with equal keys violate it also where a part of the key is null.
  pub unique_group-decides :
      (clock : Option ℕ) (i : ℕ) (names : List String) (idxs : List ℕ) (schema : Schema)
      (batches : List RecordBatch) (keys : List (List CompositeKeyPart))
      → names ≢ []
      → group_columns c schema names [] ≡ ok idxs
      → gather (row_keys c idxs) batches ≡ some keys
      → length keys < u64_mod
      → (r : AssertionResult F) × (outcome_of c clock i
            (Assertion.unique_group names)
            schema
            batches
          ≡ some r)
        × Decides i r (Distinct keys)
  unfolding build build_unique_group finalize
  unique_group-decides clock i names idxs schema batches keys some_name found read h =
      outcome_of-count c clock i (Assertion.unique_group names) schema batches
        (insert_keys keys ([], 0)).1 _ (ground arith)
        (run-step c (unique_composite-IsArm c names idxs) batches keys ([], 0) tt read) refl
        (dup_count-zero_iff keys h)
