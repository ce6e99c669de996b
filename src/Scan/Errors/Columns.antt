-- ===== src/Scan/Errors/Columns.antt =====
-- Columns that the schema does not have.
use ematix_probe.Prelude.{
  ℕ, ◌≡◌, refl, String, true, false, none, List, [], ◌∷◌, ◌++◌, arith, contains, string_eq,
  Option-cases, inl, inr,
}
use ematix_probe.Float.{Float}
use ematix_probe.Data.{Assertion}
use ematix_probe.Crates.{Crates}
use ematix_probe.Scan.Build.{
  build, build_not_null, build_unique, build_unique_group, build_between, build_regex, build_enum,
  build_freshness, build_percentile_between, build_cardinality_between, column_index, group_columns,
}
use ematix_probe.Scan.Errors.{columns_of, is_err, IsRefused, index_of-named}

module _ {F : Type 0} (c : Crates F) ⦃fl : Float F⦄ where
  open c use {DataType, Schema, RecordBatch, Regex, index_of, field_type, kind}

  group_columns-missing :
      (schema : Schema) (column : String) (columns : List String) (idxs : List ℕ)
      → contains columns column ≡ true
      → index_of schema column ≡ none
      → is_err (group_columns c schema columns idxs) ≡ true
  unfolding group_columns column_index
  group_columns-missing schema column [] idxs h e = cc
  group_columns-missing schema column (d ∷ columns) idxs h e =
      elim (Option-cases (index_of schema d)) [
        | inl here ↦ rw (here, group_columns, column_index) refl
        | inr (ci, here) ↦
            let other : string_eq.beq column d ≡ false =
              ground (arith, index_of-named c schema d column) in
            let rest =
              group_columns-missing schema column columns (idxs ++ ci ∷ []) (ground arith) e in
            rw (here, group_columns, column_index) (ground arith)
      ]

  pub missing_column-IsRefused :
      (a : Assertion F DataType) (schema : Schema) (column : String)
      → contains (columns_of a) column ≡ true
      → index_of schema column ≡ none
      → IsRefused c a schema
  unfolding build build_not_null build_unique build_unique_group build_between build_regex
      build_enum build_freshness build_percentile_between build_cardinality_between column_index
  missing_column-IsRefused (Assertion.not_null name) schema column h e =
      ground (arith, index_of-named c schema name column h)
  missing_column-IsRefused (Assertion.unique name) schema column h e =
      ground (arith, index_of-named c schema name column h)
  missing_column-IsRefused (Assertion.unique_group names) schema column h e =
      ground (arith, group_columns-missing schema column names [] h e)
  missing_column-IsRefused (Assertion.between name low high) schema column h e =
      ground (arith, index_of-named c schema name column h)
  missing_column-IsRefused (Assertion.regex name pattern') schema column h e =
      ground (arith, index_of-named c schema name column h)
  missing_column-IsRefused (Assertion.enum name allowed) schema column h e =
      ground (arith, index_of-named c schema name column h)
  missing_column-IsRefused (Assertion.freshness name within) schema column h e =
      ground (arith, index_of-named c schema name column h)
  missing_column-IsRefused (Assertion.percentile_between name p low high) schema column h e =
      ground (arith, index_of-named c schema name column h)
  missing_column-IsRefused (Assertion.cardinality_between name low high) schema column h e =
      ground (arith, index_of-named c schema name column h)
  missing_column-IsRefused (Assertion.row_count low high) schema column h e = cc
  missing_column-IsRefused (Assertion.schema_match fields) schema column h e = cc
