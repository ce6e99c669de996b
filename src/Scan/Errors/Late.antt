-- ===== src/Scan/Errors/Late.antt =====
-- `Between` on a column of another type: its build does not look at the type.
use ematix_probe.Prelude.{ℕ, ◌≡◌, refl, String, false, Option, none, some, List, [], ◌∷◌, arith}
use ematix_probe.Message.{Message}
use ematix_probe.Float.{Float}
use ematix_probe.Data.{Assertion}
use ematix_probe.Crates.{Kind, Crates}
use ematix_probe.Crates.Laws.{IsArrow}
use ematix_probe.Scan.Acc.{Acc}
use ematix_probe.Scan.Build.{build, build_between, column_index, is_supported_numeric}
use ematix_probe.Scan.Update.{
  ◌>>=◌, update, update_between, count_oob, typed_values, between_unsupported,
}
use ematix_probe.Scan.Finalize.{finalize, finalize_count, pass, error_result}
use ematix_probe.Scan.Run.{run, outcome_of}
use ematix_probe.Scan.Decide.{outcome_of-run}
use ematix_probe.Scan.Errors.{run-error}

module _ {F : Type 0} (c : Crates F) (law : IsArrow c) ⦃fl : Float F⦄ where
  open c use {DataType, Schema, RecordBatch, Regex, Array, index_of, field_type, kind}

  typed_values-none :
      (k : Kind) (a : Array) → is_supported_numeric k ≡ false → typed_values c k a ≡ none
  unfolding typed_values
  typed_values-none (Kind.int t) a h = cc
  typed_values-none Kind.float32 a h = cc
  typed_values-none Kind.float64 a h = cc
  typed_values-none Kind.utf8 a h = refl
  typed_values-none (Kind.timestamp u) a h = refl
  typed_values-none Kind.other a h = refl

  module _ (name : String) (low high : F) (k : ℕ) (schema : Schema)
      (found : index_of schema name ≡ some k)
      (bad : is_supported_numeric (kind (field_type schema k)) ≡ false) where
    update-unsupported :
        (b : RecordBatch)
        → law.batch_schema b ≡ schema
        → (m : Message F) × (update c (Acc.between name k low high 0) b ≡ some (Acc.error m))
    unfolding update update_between count_oob
    update-unsupported b same =
        let (a, read, typed, long) =
          law.column-of_field b k name (field_type schema k)
            (rw same (law.index_of-found schema name k found)) in
        let none_typed : typed_values c (kind (c.data_type a)) a ≡ none =
          typed_values-none (kind (c.data_type a)) a (rw typed bad) in
        (between_unsupported c (c.data_type a), rw (read, ◌>>=◌, none_typed, ◌>>=◌) refl)

    -- With arrow's documented behaviour (IsArrow), on a column that the schema has, of a type that
    -- `Between` cannot compare: `Between` passes if the scanner delivers no batch, and is an
    -- `Error` as soon as it delivers one of its schema, also without a row.
    pub between-unsupported :
        (clock : Option ℕ) (i : ℕ)
        → (outcome_of c clock i (Assertion.between name low high) schema [] ≡ some (pass i))
          × ((b : RecordBatch) (batches : List RecordBatch)
              → law.batch_schema b ≡ schema
              → (m : Message F) × (outcome_of c clock i
                    (Assertion.between name low high)
                    schema
                    (b ∷ batches)
                  ≡ some (error_result i m)))
    unfolding build build_between column_index finalize finalize_count run
    between-unsupported clock i =
        let built : build c (Assertion.between name low high) schema
            ≡ Acc.between name k low high 0 =
          ground arith in
        (
          outcome_of-run c clock i (Assertion.between name low high) schema [] built refl refl,
          λ b batches same.
              let (m, e) = update-unsupported b same in
              (
                m,
                outcome_of-run c clock i (Assertion.between name low high) schema (b ∷ batches)
                    {start = Acc.between name k low high 0} {end = Acc.error m}
                    {r = error_result i m} built (rw (e, ◌>>=◌) (run-error c batches m)) refl,
              ),
        )
