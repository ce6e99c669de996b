-- ===== src/Scan/Build.antt =====
-- `Acc::build` of engine/scan.rs: its match, and the arms, one function each, passed on.
mod Columns
mod Keys
mod Values
mod Shape
unfoldable pub use Columns.*
unfoldable pub use Keys.*
unfoldable pub use Values.*
unfoldable pub use Shape.*
use ematix_probe.Float.{Float}
use ematix_probe.Data.{Assertion}
use ematix_probe.Crates.{Crates}
use ematix_probe.Scan.Acc.{Acc}

module _ {F : Type 0} (c : Crates F) ⦃fl : Float F⦄ where
  open c use {DataType, Schema, Regex}

  unfoldable pub build : Assertion F DataType → Schema → Acc F Regex
  build (Assertion.not_null column) schema = build_not_null c column schema
  build (Assertion.unique column) schema = build_unique c column schema
  build (Assertion.unique_group columns) schema = build_unique_group c columns schema
  build (Assertion.between column low high) schema = build_between c column low high schema
  build (Assertion.regex column pattern') schema = build_regex c column pattern' schema
  build (Assertion.enum column allowed) schema = build_enum c column allowed schema
  build (Assertion.row_count low high) schema = build_row_count c low high
  build (Assertion.freshness column within_seconds) schema =
      build_freshness c column within_seconds schema
  build (Assertion.percentile_between column p low high) schema =
      build_percentile_between c column p low high schema
  build (Assertion.cardinality_between column low high) schema =
      build_cardinality_between c column low high schema
  build (Assertion.schema_match expected) schema = build_schema_match c expected schema
