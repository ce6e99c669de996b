-- ===== src/Scan/Errors/Types.antt =====
-- Columns of a type that the build does not accept.
use ematix_probe.Prelude.{
  ℕ, ℤ, ◌≡◌, refl, sym, ap, ◌∙◌, String, true, false, Option, some, List, [], ◌∷◌, ◌++◌, arith,
  contains, string_eq, Bool-cases, Option-cases, inl, inr,
}
use ematix_probe.Float.{Float}
use ematix_probe.Data.{Assertion}
use ematix_probe.Crates.{Kind, IntType, Crates}
use ematix_probe.Scan.Build.{
  build, build_unique, build_unique_group, build_regex, build_enum, build_freshness,
  build_percentile_between, build_cardinality_between, column_index, group_columns, is_key_type,
  unique_of_kind, regex_of_kind, enum_of_kind, freshness_of_kind, cardinality_of_kind,
}
use ematix_probe.Scan.Errors.{
  columns_of, accepts, is_utf8, is_timestamp, is_error, is_err, IsRefused, index_of-named,
}

module _ {F : Type 0} (c : Crates F) ⦃fl : Float F⦄ where
  open c use {DataType, Schema, RecordBatch, Regex, index_of, field_type, kind}

  unique_of_kind-refused :
      (name : String) (i : ℕ) (dt : DataType) (k : Kind)
      → is_key_type k ≡ false
      → is_error (unique_of_kind c name i dt k) ≡ true
  unfolding unique_of_kind
  unique_of_kind-refused name i dt (Kind.int IntType.int64) h = cc
  unique_of_kind-refused name i dt (Kind.int IntType.int8) h = refl
  unique_of_kind-refused name i dt (Kind.int IntType.int16) h = refl
  unique_of_kind-refused name i dt (Kind.int IntType.int32) h = refl
  unique_of_kind-refused name i dt (Kind.int IntType.uint8) h = refl
  unique_of_kind-refused name i dt (Kind.int IntType.uint16) h = refl
  unique_of_kind-refused name i dt (Kind.int IntType.uint32) h = refl
  unique_of_kind-refused name i dt (Kind.int IntType.uint64) h = refl
  unique_of_kind-refused name i dt Kind.float32 h = refl
  unique_of_kind-refused name i dt Kind.float64 h = refl
  unique_of_kind-refused name i dt Kind.utf8 h = cc
  unique_of_kind-refused name i dt (Kind.timestamp u) h = refl
  unique_of_kind-refused name i dt Kind.other h = refl

  cardinality_of_kind-refused :
      (name : String) (low high : Option ℤ) (i : ℕ) (dt : DataType) (k : Kind)
      → is_key_type k ≡ false
      → is_error (cardinality_of_kind c name low high i dt k) ≡ true
  unfolding cardinality_of_kind
  cardinality_of_kind-refused name low high i dt (Kind.int IntType.int64) h = cc
  cardinality_of_kind-refused name low high i dt (Kind.int IntType.int8) h = refl
  cardinality_of_kind-refused name low high i dt (Kind.int IntType.int16) h = refl
  cardinality_of_kind-refused name low high i dt (Kind.int IntType.int32) h = refl
  cardinality_of_kind-refused name low high i dt (Kind.int IntType.uint8) h = refl
  cardinality_of_kind-refused name low high i dt (Kind.int IntType.uint16) h = refl
  cardinality_of_kind-refused name low high i dt (Kind.int IntType.uint32) h = refl
  cardinality_of_kind-refused name low high i dt (Kind.int IntType.uint64) h = refl
  cardinality_of_kind-refused name low high i dt Kind.float32 h = refl
  cardinality_of_kind-refused name low high i dt Kind.float64 h = refl
  cardinality_of_kind-refused name low high i dt Kind.utf8 h = cc
  cardinality_of_kind-refused name low high i dt (Kind.timestamp u) h = refl
  cardinality_of_kind-refused name low high i dt Kind.other h = refl

  regex_of_kind-refused :
      (name pattern' : String) (i : ℕ) (dt : DataType) (k : Kind)
      → is_utf8 k ≡ false
      → is_error (regex_of_kind c name pattern' i dt k) ≡ true
  unfolding regex_of_kind
  regex_of_kind-refused name pattern' i dt (Kind.int t) h = refl
  regex_of_kind-refused name pattern' i dt Kind.float32 h = refl
  regex_of_kind-refused name pattern' i dt Kind.float64 h = refl
  regex_of_kind-refused name pattern' i dt Kind.utf8 h = cc
  regex_of_kind-refused name pattern' i dt (Kind.timestamp u) h = refl
  regex_of_kind-refused name pattern' i dt Kind.other h = refl

  enum_of_kind-refused :
      (name : String) (allowed : List String) (i : ℕ) (dt : DataType) (k : Kind)
      → is_utf8 k ≡ false
      → is_error (enum_of_kind c name allowed i dt k) ≡ true
  unfolding enum_of_kind
  enum_of_kind-refused name allowed i dt (Kind.int t) h = refl
  enum_of_kind-refused name allowed i dt Kind.float32 h = refl
  enum_of_kind-refused name allowed i dt Kind.float64 h = refl
  enum_of_kind-refused name allowed i dt Kind.utf8 h = cc
  enum_of_kind-refused name allowed i dt (Kind.timestamp u) h = refl
  enum_of_kind-refused name allowed i dt Kind.other h = refl

  freshness_of_kind-refused :
      (name : String) (within : ℤ) (i : ℕ) (dt : DataType) (k : Kind)
      → is_timestamp k ≡ false
      → is_error (freshness_of_kind c name within i dt k) ≡ true
  unfolding freshness_of_kind
  freshness_of_kind-refused name within i dt (Kind.int t) h = refl
  freshness_of_kind-refused name within i dt Kind.float32 h = refl
  freshness_of_kind-refused name within i dt Kind.float64 h = refl
  freshness_of_kind-refused name within i dt Kind.utf8 h = refl
  freshness_of_kind-refused name within i dt (Kind.timestamp u) h = cc
  freshness_of_kind-refused name within i dt Kind.other h = refl

  group_columns-unsupported :
      (schema : Schema) (column : String) (columns : List String) (idxs : List ℕ) (k : ℕ)
      → contains columns column ≡ true
      → index_of schema column ≡ some k
      → is_key_type (kind (field_type schema k)) ≡ false
      → is_err (group_columns c schema columns idxs) ≡ true
  unfolding group_columns column_index
  group_columns-unsupported schema column [] idxs k h e n = cc
  group_columns-unsupported schema column (d ∷ columns) idxs k h e n =
      elim (Option-cases (index_of schema d)) [
        | inl here ↦ rw (here, group_columns, column_index) refl
        | inr (ci, here) ↦ elim (Bool-cases (string_eq.beq column d)) [
          | inl same ↦
              let both : some ci ≡ some k =
                sym here ∙ index_of-named c schema d column (ground arith) ∙ e in
              let at : ci ≡ k = ground arith in
              let bad : is_key_type (kind (field_type schema ci)) ≡ false =
                ap (λ j. is_key_type (kind (field_type schema j))) at ∙ n in
              rw (here, group_columns, column_index) (ground arith)
          | inr other ↦
              let rest =
                group_columns-unsupported schema column columns (idxs ++ ci ∷ []) k (ground arith) e
                  n in
              rw (here, group_columns, column_index) (ground arith)
        ]
      ]

  pub unsupported_type-IsRefused :
      (a : Assertion F DataType) (schema : Schema) (name : String) (k : ℕ)
      → contains (columns_of a) name ≡ true
      → index_of schema name ≡ some k
      → accepts a (kind (field_type schema k)) ≡ false
      → IsRefused c a schema
  unfolding build build_unique build_unique_group build_regex build_enum build_freshness
      build_percentile_between build_cardinality_between column_index
  unsupported_type-IsRefused (Assertion.unique name') schema name k n e h = ground (
    arith,
    index_of-named c schema name' name n,
    unique_of_kind-refused name' k (field_type schema k) (kind (field_type schema k)) h,
  )
  unsupported_type-IsRefused (Assertion.regex name' pattern') schema name k n e h = ground (
    arith,
    index_of-named c schema name' name n,
    regex_of_kind-refused name' pattern' k (field_type schema k) (kind (field_type schema k)) h,
  )
  unsupported_type-IsRefused (Assertion.enum name' allowed) schema name k n e h = ground (
    arith,
    index_of-named c schema name' name n,
    enum_of_kind-refused name' allowed k (field_type schema k) (kind (field_type schema k)) h,
  )
  unsupported_type-IsRefused (Assertion.freshness name' within) schema name k n e h = ground (
    arith,
    index_of-named c schema name' name n,
    freshness_of_kind-refused name' within k (field_type schema k) (kind (field_type schema k)) h,
  )
  unsupported_type-IsRefused (Assertion.cardinality_between name' low high) schema name k n e h =
      ground (
        arith,
        index_of-named c schema name' name n,
        cardinality_of_kind-refused name' low high k (field_type schema k)
            (kind (field_type schema k)) h,
      )
  unsupported_type-IsRefused (Assertion.percentile_between name' p low high) schema name k n e h =
      ground (arith, index_of-named c schema name' name n)
  unsupported_type-IsRefused (Assertion.unique_group names) schema name k n e h =
      ground (arith, group_columns-unsupported schema name names [] k n e h)
  unsupported_type-IsRefused _ schema name k n e h = cc
