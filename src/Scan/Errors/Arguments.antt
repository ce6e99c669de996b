-- ===== src/Scan/Errors/Arguments.antt =====
-- Arguments that assert nothing.
use ematix_probe.Prelude.{◌≡◌, true, arith, string_eq}
use ematix_probe.Float.{Float}
use ematix_probe.Data.{Assertion}
use ematix_probe.Crates.{Crates}
use ematix_probe.Scan.Build.{
  build, build_unique_group, build_enum, build_row_count, build_freshness, build_percentile_between,
  build_cardinality_between, build_schema_match,
}
use ematix_probe.Scan.Errors.{is_vacuous, IsRefused}

module _ {F : Type 0} (c : Crates F) ⦃fl : Float F⦄ where
  open c use {DataType, Schema, RecordBatch, Regex, index_of, field_type, kind}

  pub vacuous-IsRefused :
      (a : Assertion F DataType) (schema : Schema) → is_vacuous a ≡ true → IsRefused c a schema
  unfolding build build_unique_group build_enum build_row_count build_freshness
      build_percentile_between build_cardinality_between build_schema_match
  vacuous-IsRefused (Assertion.unique_group columns) schema h = ground arith
  vacuous-IsRefused (Assertion.enum name allowed) schema h = ground arith
  vacuous-IsRefused (Assertion.row_count low high) schema h = ground arith
  vacuous-IsRefused (Assertion.freshness name within) schema h = ground arith
  vacuous-IsRefused (Assertion.percentile_between name p low high) schema h = ground arith
  vacuous-IsRefused (Assertion.cardinality_between name low high) schema h = ground arith
  vacuous-IsRefused (Assertion.schema_match fields) schema h = ground arith
  vacuous-IsRefused (Assertion.not_null name) schema h = cc
  vacuous-IsRefused (Assertion.unique name) schema h = cc
  vacuous-IsRefused (Assertion.between name low high) schema h = cc
  vacuous-IsRefused (Assertion.regex name pattern') schema h = cc
