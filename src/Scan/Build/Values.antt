-- ===== src/Scan/Build/Values.antt =====
-- `Acc::build` of engine/scan.rs: the arms that judge the values of a column.
use ematix_probe.Prelude.{
  ℕ, ℤ, pos, String, not, ◌||◌, none, List, [], ◌∷◌, length, is_empty, if◌then◌else◌, ltb_ℤ,
  string_eq, to_set,
}
use ematix_probe.Message.{lit, str, debug_str, int, float}
use ematix_probe.Float.{Float, in_unit}
use ematix_probe.Crates.{ok, err, Kind, Crates}
use ematix_probe.Scan.Acc.{Acc}
use ematix_probe.Scan.Build.Columns.{is_supported_numeric, column_index}

module _ {F : Type 0} (c : Crates F) where
  open c use {
    DataType, Schema, Regex, kind, type_eq, debug_type, fields, index_of, field_type, regex_new,
  }

  unfoldable pub build_between : String → F → F → Schema → Acc F Regex
  build_between column low high schema = elim (column_index c schema column) [
    | ok col_idx ↦ Acc.between column col_idx low high 0
    | err msg ↦ Acc.error msg
  ]

  -- the match on the data type in the `Regex` arm
  unfoldable pub regex_of_kind : String → String → ℕ → DataType → Kind → Acc F Regex
  regex_of_kind column pattern' col_idx dt Kind.utf8 = elim (regex_new pattern') [
    | ok re ↦ Acc.regex column col_idx re pattern' 0
    | err e ↦ Acc.error (
        lit "scan-path regex on column "
        ∷ debug_str column
        ∷ lit ": invalid regex pattern "
        ∷ debug_str pattern'
        ∷ lit ": "
        ∷ str e
        ∷ [])
  ]
  regex_of_kind column pattern' col_idx dt _ = Acc.error (
      lit "scan-path regex on column "
      ∷ debug_str column
      ∷ lit ": unsupported Arrow type "
      ∷ str (debug_type dt)
      ∷ lit " (supported: Utf8)"
      ∷ [])

  unfoldable pub build_regex : String → String → Schema → Acc F Regex
  unfolding regex_of_kind
  build_regex column pattern' schema = elim (column_index c schema column) [
    | ok col_idx ↦
        let dt = field_type schema col_idx in regex_of_kind column pattern' col_idx dt (kind dt)
    | err msg ↦ Acc.error msg
  ]

  -- the match on the data type in the `Enum` arm
  unfoldable pub enum_of_kind : String → List String → ℕ → DataType → Kind → Acc F Regex
  enum_of_kind column allowed col_idx dt Kind.utf8 =
      Acc.enum column col_idx (to_set allowed) (length allowed) 0
  enum_of_kind column allowed col_idx dt _ = Acc.error (
      lit "scan-path enum on column "
      ∷ debug_str column
      ∷ lit ": unsupported Arrow type "
      ∷ str (debug_type dt)
      ∷ lit " (supported: Utf8)"
      ∷ [])

  unfoldable pub build_enum : String → List String → Schema → Acc F Regex
  unfolding enum_of_kind
  build_enum column allowed schema =
      if is_empty allowed
      then Acc.error (
          lit "scan-path enum on column "
          ∷ debug_str column
          ∷ lit ": allowed set is empty (would reject every non-NULL row)"
          ∷ [])
      else elim (column_index c schema column) [
        | ok col_idx ↦
            let dt = field_type schema col_idx in enum_of_kind column allowed col_idx dt (kind dt)
        | err msg ↦ Acc.error msg
      ]

  -- the match on the data type in the `Freshness` arm
  unfoldable pub freshness_of_kind : String → ℤ → ℕ → DataType → Kind → Acc F Regex
  freshness_of_kind column within_seconds col_idx dt (Kind.timestamp unit) =
      Acc.freshness column col_idx unit within_seconds none
  freshness_of_kind column within_seconds col_idx dt _ = Acc.error (
      lit "scan-path freshness on column "
      ∷ debug_str column
      ∷ lit ": unsupported Arrow type "
      ∷ str (debug_type dt)
      ∷ lit " (need Timestamp)"
      ∷ [])

  unfoldable pub build_freshness : String → ℤ → Schema → Acc F Regex
  unfolding freshness_of_kind
  build_freshness column within_seconds schema =
      if ltb_ℤ within_seconds (pos 0)
      then Acc.error (
          lit "scan-path freshness on column "
          ∷ debug_str column
          ∷ lit ": within_seconds is negative ("
          ∷ int within_seconds
          ∷ lit ")"
          ∷ [])
      else elim (column_index c schema column) [
        | ok col_idx ↦
            let dt = field_type schema col_idx in
            freshness_of_kind column within_seconds col_idx dt (kind dt)
        | err msg ↦ Acc.error msg
      ]

  module _ ⦃fl : Float F⦄ where
    unfoldable pub build_percentile_between : String → F → F → F → Schema → Acc F Regex
    build_percentile_between column p low high schema =
        if not (fl.is_finite p) || not (in_unit p)
        then Acc.error (
            lit "scan-path percentile_between on column "
            ∷ debug_str column
            ∷ lit ": p must be in [0.0, 1.0] (got "
            ∷ float p
            ∷ lit ")"
            ∷ [])
        else elim (column_index c schema column) [
          | ok col_idx ↦
              let dt = field_type schema col_idx in
              if not (is_supported_numeric (kind dt))
              then Acc.error (
                  lit "scan-path percentile_between on column "
                  ∷ debug_str column
                  ∷ lit ": unsupported Arrow type "
                  ∷ str (debug_type dt)
                  ∷ lit " (need a numeric type)"
                  ∷ [])
              else Acc.percentile_between column col_idx p low high []
          | err msg ↦ Acc.error msg
        ]
