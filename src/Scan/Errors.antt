-- ===== src/Scan/Errors.antt =====
-- The assertions that `Acc::build` of engine/scan.rs refuses: what they name, and that an error at
-- the build stays.
pub mod Columns
pub mod Arguments
pub mod Types
pub mod Late
pub mod Accepted
pub mod Faults
use ematix_probe.Prelude.{
  ℕ, zero, suc, ℤ, pos, ◌≡◌, ◌≢◌, refl, sym, ap, ◌∙◌, String, Bool, true, false, not, ◌&&◌, ◌||◌,
  Option, none, some, List, [], ◌∷◌, ◌++◌, arith, is_none, is_empty, ltb_ℤ, contains, string_eq,
  if◌then◌else◌, Bool-cases, Option-cases, inl, inr,
}
use ematix_probe.Message.{Message}
use ematix_probe.Float.{Float, in_unit}
use ematix_probe.Data.{Assertion, AssertionResult}
use ematix_probe.Crates.{Kind, IntType, Result, ok, err, Result-cases, Crates}
use ematix_probe.Scan.Acc.{Acc}
use ematix_probe.Scan.Build.{
  build, build_not_null, build_unique, build_unique_group, build_between, build_regex, build_enum,
  build_row_count, build_freshness, build_percentile_between, build_cardinality_between,
  build_schema_match, column_index, group_columns, is_key_type, is_supported_numeric,
  unique_of_kind, regex_of_kind, enum_of_kind, freshness_of_kind, cardinality_of_kind,
}
use ematix_probe.Scan.Update.{◌>>=◌, update}
use ematix_probe.Scan.Finalize.{finalize, error_result}
use ematix_probe.Scan.Run.{run, outcome_of}
use ematix_probe.Scan.Decide.{outcome_of-run}

abbrev pub is_utf8 : Kind → Bool
is_utf8 Kind.utf8 = true
is_utf8 _ = false

abbrev pub is_timestamp : Kind → Bool
is_timestamp (Kind.timestamp unit) = true
is_timestamp _ = false

module _ {F : Type 0} ⦃fl : Float F⦄ where
  -- The columns that an assertion names.
  abbrev pub columns_of : {D : Type 0} → Assertion F D → List String
  columns_of (Assertion.not_null column) = column ∷ []
  columns_of (Assertion.unique column) = column ∷ []
  columns_of (Assertion.unique_group columns) = columns
  columns_of (Assertion.between column _ _) = column ∷ []
  columns_of (Assertion.regex column _) = column ∷ []
  columns_of (Assertion.enum column _) = column ∷ []
  columns_of (Assertion.row_count _ _) = []
  columns_of (Assertion.freshness column _) = column ∷ []
  columns_of (Assertion.percentile_between column _ _ _) = column ∷ []
  columns_of (Assertion.cardinality_between column _ _) = column ∷ []
  columns_of (Assertion.schema_match _) = []

  -- The arguments that no data could satisfy or that would assert nothing.
  abbrev pub is_vacuous : {D : Type 0} → Assertion F D → Bool
  is_vacuous (Assertion.unique_group columns) = is_empty columns
  is_vacuous (Assertion.enum _ allowed) = is_empty allowed
  is_vacuous (Assertion.row_count low high) = is_none low && is_none high
  is_vacuous (Assertion.freshness _ within_seconds) = ltb_ℤ within_seconds (pos 0)
  is_vacuous (Assertion.percentile_between _ p _ _) = not (fl.is_finite p) || not (in_unit p)
  is_vacuous (Assertion.cardinality_between _ low high) = is_none low && is_none high
  is_vacuous (Assertion.schema_match fields) = is_empty fields
  is_vacuous _ = false

  -- The types of columns that the build of an assertion accepts.
  abbrev pub accepts : {D : Type 0} → Assertion F D → Kind → Bool
  accepts (Assertion.unique _) = is_key_type
  accepts (Assertion.unique_group _) = is_key_type
  accepts (Assertion.regex _ _) = is_utf8
  accepts (Assertion.enum _ _) = is_utf8
  accepts (Assertion.freshness _ _) = is_timestamp
  accepts (Assertion.percentile_between _ _ _ _) = is_supported_numeric
  accepts (Assertion.cardinality_between _ _ _) = is_key_type
  accepts _ = λ k. true

abbrev pub is_err : {F A : Type 0} → Result (Message F) A → Bool
is_err (err m) = true
is_err (ok a) = false

module _ {F R : Type 0} where
  abbrev pub is_error : Acc F R → Bool
  is_error (Acc.error m) = true
  is_error _ = false

  is_error-message : (acc : Acc F R) → is_error acc ≡ true → (m : Message F) × (acc ≡ Acc.error m)
  is_error-message (Acc.error m) h = (m, refl)
  is_error-message _ h = cc

module _ {F : Type 0} (c : Crates F) ⦃fl : Float F⦄ where
  open c use {DataType, Schema, RecordBatch, Regex, index_of, field_type, kind}

  -- The batches do not change an accumulator that holds an error.
  pub run-error :
      (bs : List RecordBatch) (m : Message F) → run c bs (Acc.error m) ≡ some (Acc.error m)
  unfolding run update
  run-error [] m = refl
  run-error (b ∷ bs) m = rw (run-error bs m)

  -- The build gives an error.
  abbrev pub IsRefused : Assertion F DataType → Schema → Type 0
  IsRefused a schema = is_error (build c a schema) ≡ true

  pub outcome_of-refused :
      (clock : Option ℕ) (i : ℕ) (a : Assertion F DataType) (schema : Schema)
      (batches : List RecordBatch)
      → IsRefused a schema
      → (m : Message F) × (outcome_of c clock i a schema batches ≡ some (error_result i m))
  unfolding finalize
  outcome_of-refused clock i a schema batches refused =
      let (m, e) = is_error-message (build c a schema) refused in
      (m, outcome_of-run c clock i a schema batches e (run-error batches m) refl)

  pub index_of-named :
      (schema : Schema) (name column : String)
      → contains (name ∷ []) column ≡ true
      → index_of schema name ≡ index_of schema column
  index_of-named schema name column h =
      ap (index_of schema) (sym ((string_eq.beq_iff column name).0 (ground arith)))
