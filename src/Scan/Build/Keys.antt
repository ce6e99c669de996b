-- ===== src/Scan/Build/Keys.antt =====
-- `Acc::build` of engine/scan.rs: the arms that look for nulls and for keys.
use ematix_probe.Prelude.{
  ℕ, ℤ, String, ◌&&◌, Option, List, [], ◌∷◌, ◌++◌, is_empty, is_none, if◌then◌else◌, string_eq,
}
use ematix_probe.Message.{Message, lit, str, debug_str}
use ematix_probe.Crates.{Result, ok, err, IntType, Kind, Crates}
use ematix_probe.Scan.Acc.{Acc}
use ematix_probe.Scan.Build.Columns.{is_key_type, column_index}

module _ {F : Type 0} (c : Crates F) where
  open c use {
    DataType, Schema, Regex, kind, type_eq, debug_type, fields, index_of, field_type, regex_new,
  }

  unfoldable pub build_not_null : String → Schema → Acc F Regex
  build_not_null column schema = elim (column_index c schema column) [
    | ok col_idx ↦ Acc.not_null column col_idx 0
    | err msg ↦ Acc.error msg
  ]

  -- the match on the data type in the `Unique` arm
  unfoldable pub unique_of_kind : String → ℕ → DataType → Kind → Acc F Regex
  unique_of_kind column col_idx dt (Kind.int IntType.int64) = Acc.unique_i64 column col_idx [] 0
  unique_of_kind column col_idx dt Kind.utf8 = Acc.unique_str column col_idx [] 0
  unique_of_kind column col_idx dt _ = Acc.error (
      lit "scan-path unique on column "
      ∷ debug_str column
      ∷ lit ": unsupported Arrow type "
      ∷ str (debug_type dt)
      ∷ lit " (supported: Int64, Utf8)"
      ∷ [])

  unfoldable pub build_unique : String → Schema → Acc F Regex
  unfolding unique_of_kind
  build_unique column schema = elim (column_index c schema column) [
    | ok col_idx ↦ let dt = field_type schema col_idx in unique_of_kind column col_idx dt (kind dt)
    | err msg ↦ Acc.error msg
  ]

  -- the `for col in columns` of the `UniqueGroup` arm: the indices, or the first error
  unfoldable pub group_columns : Schema → List String → List ℕ → Result (Message F) (List ℕ)
  group_columns schema [] col_idxs = ok col_idxs
  group_columns schema (col ∷ columns) col_idxs = elim (column_index c schema col) [
    | ok ci ↦
        let rest = group_columns schema columns (col_idxs ++ ci ∷ []) in
        if is_key_type (kind (field_type schema ci))
        then rest
        else err (
            lit "scan-path unique-group column "
            ∷ debug_str col
            ∷ lit ": unsupported Arrow type "
            ∷ str (debug_type (field_type schema ci))
            ∷ lit " (supported: Int64, Utf8)"
            ∷ [])
    | err msg ↦ err msg
  ]

  unfoldable pub build_unique_group : List String → Schema → Acc F Regex
  unfolding group_columns
  build_unique_group columns schema =
      if is_empty columns
      then Acc.error (lit "unique-group requires at least one column" ∷ [])
      else elim (group_columns schema columns []) [
        | ok col_idxs ↦ Acc.unique_composite columns col_idxs [] 0
        | err message ↦ Acc.error message
      ]

  -- the match on the data type in the `CardinalityBetween` arm
  unfoldable pub cardinality_of_kind :
      String → Option ℤ → Option ℤ → ℕ → DataType → Kind → Acc F Regex
  cardinality_of_kind column low high col_idx dt (Kind.int IntType.int64) =
      Acc.cardinality_i64 column col_idx low high []
  cardinality_of_kind column low high col_idx dt Kind.utf8 =
      Acc.cardinality_str column col_idx low high []
  cardinality_of_kind column low high col_idx dt _ = Acc.error (
      lit "scan-path cardinality_between on column "
      ∷ debug_str column
      ∷ lit ": unsupported Arrow type "
      ∷ str (debug_type dt)
      ∷ lit " (supported: Int64, Utf8)"
      ∷ [])

  unfoldable pub build_cardinality_between : String → Option ℤ → Option ℤ → Schema → Acc F Regex
  unfolding cardinality_of_kind
  build_cardinality_between column low high schema =
      if is_none low && is_none high
      then Acc.error (
          lit "scan-path cardinality_between on column "
          ∷ debug_str column
          ∷ lit ": at least one of low / high must be set"
          ∷ [])
      else elim (column_index c schema column) [
        | ok col_idx ↦
            let dt = field_type schema col_idx in
            cardinality_of_kind column low high col_idx dt (kind dt)
        | err msg ↦ Acc.error msg
      ]
