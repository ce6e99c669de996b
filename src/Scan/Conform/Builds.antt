-- ===== src/Scan/Conform/Builds.antt =====
-- `Acc::build` gives an accumulator that fits the schema.
use ematix_probe.Prelude.{
  ℕ, ◌≡◌, refl, false, ℤ, inl, inr, String, Option, none, some, List, [], ◌∷◌, arith, Bool-cases,
  string_eq, is_none, ◌&&◌, ◌||◌, not, ltb_ℤ, pos, eqb, length,
}
use ematix_probe.Float.{Float, in_unit}
use ematix_probe.Data.{Assertion}
use ematix_probe.Crates.{Result-cases, Crates}
use ematix_probe.Crates.Laws.{IsArrow}
use ematix_probe.Scan.Build.{
  column_index, build_not_null, build_unique, group_columns, build_unique_group, build_between,
  build_regex, build_enum, build_row_count, build_schema_match, build_cardinality_between,
  build_freshness, build_percentile_between, is_supported_numeric, build,
}
use ematix_probe.Scan.Errors.{is_error}
use ematix_probe.Scan.Conform.{Fits}
use ematix_probe.Scan.Conform.Kinds.{
  column_index-HasKind, column_index-found, unique_of_kind-Fits, regex_of_kind-Fits,
  enum_of_kind-Fits, cardinality_of_kind-Fits, freshness_of_kind-Fits, group_columns-HasKey,
  match_fields-Fits,
}

module _ {F : Type 0} (c : Crates F) (law : IsArrow c) ⦃fl : Float F⦄
    (N : ℕ → List F → Type 0) where
  open c use {DataType, Schema, Regex, kind, fields, field_type, index_of}

  build_not_null-Fits : (s : Schema) (name : String) → Fits c N s 0 (build_not_null c name s)
  unfolding build_not_null
  build_not_null-Fits s name = elim (Result-cases (column_index c s name)) [
    | inl (i, e) ↦
        let (f, at, _) = column_index-HasKind c law s name i e in rw (e, build_not_null) ((f, at))
    | inr (m, e) ↦ rw (e, build_not_null) tt
  ]

  build_between-Fits :
      (s : Schema) (name : String) (low high : F) → Fits c N s 0 (build_between c name low high s)
  unfolding build_between
  build_between-Fits s name low high = elim (Result-cases (column_index c s name)) [
    | inl (i, e) ↦
        let (f, at, _) = column_index-HasKind c law s name i e in rw (e, build_between) ((f, at))
    | inr (m, e) ↦ rw (e, build_between) tt
  ]

  build_unique-Fits : (s : Schema) (name : String) → Fits c N s 0 (build_unique c name s)
  unfolding build_unique
  build_unique-Fits s name = elim (Result-cases (column_index c s name)) [
    | inl (i, e) ↦
        rw (e, build_unique)
          (unique_of_kind-Fits c law N s name i (field_type s i) _
            (column_index-HasKind c law s name i e))
    | inr (m, e) ↦ rw (e, build_unique) tt
  ]

  build_unique_group-Fits :
      (s : Schema) (names : List String) → Fits c N s 0 (build_unique_group c names s)
  unfolding build_unique_group
  build_unique_group-Fits s [] = tt
  build_unique_group-Fits s (name ∷ names) =
      elim (Result-cases (group_columns c s (name ∷ names) [])) [
        | inl (is, e) ↦
            rw (e, build_unique_group) (group_columns-HasKey c law s (name ∷ names) [] is tt e)
        | inr (m, e) ↦ rw (e, build_unique_group) tt
      ]

  build_regex-Fits :
      (s : Schema) (name pattern' : String) → Fits c N s 0 (build_regex c name pattern' s)
  unfolding build_regex
  build_regex-Fits s name pattern' = elim (Result-cases (column_index c s name)) [
    | inl (i, e) ↦
        rw (e, build_regex)
          (regex_of_kind-Fits c law N s name pattern' i (field_type s i) _
            (column_index-HasKind c law s name i e))
    | inr (m, e) ↦ rw (e, build_regex) tt
  ]

  build_enum-Fits :
      (s : Schema) (name : String) (allowed : List String)
      → Fits c N s 0 (build_enum c name allowed s)
  unfolding build_enum
  build_enum-Fits s name [] = tt
  build_enum-Fits s name (a ∷ allowed) = elim (Result-cases (column_index c s name)) [
    | inl (i, e) ↦
        rw (e, build_enum)
          (enum_of_kind-Fits c law N s name (a ∷ allowed) i (field_type s i) _
            (column_index-HasKind c law s name i e))
    | inr (m, e) ↦ rw (e, build_enum) tt
  ]

  build_row_count-Fits :
      (s : Schema) (low high : Option ℤ) → Fits c N s 0 (build_row_count c low high)
  unfolding build_row_count
  build_row_count-Fits s none none = tt
  build_row_count-Fits s none (some hi) = tt
  build_row_count-Fits s (some lo) high = tt

  build_schema_match-Fits :
      (s : Schema) (expected : List (String × DataType))
      → Fits c N s 0 (build_schema_match c expected s)
  unfolding build_schema_match
  build_schema_match-Fits s [] = tt
  build_schema_match-Fits s (e ∷ es) =
      elim (Bool-cases (eqb (length (fields s)) (length (e ∷ es)))) [
        | inl p ↦ rw (p, build_schema_match) (match_fields-Fits c law N s 0 (e ∷ es) (fields s))
        | inr p ↦ rw (p, build_schema_match) tt
      ]

  build_cardinality-Fits :
      (s : Schema) (name : String) (low high : Option ℤ)
      → Fits c N s 0 (build_cardinality_between c name low high s)
  unfolding build_cardinality_between
  build_cardinality-Fits s name low high = elim (Bool-cases (is_none low && is_none high)) [
    | inl p ↦ rw (p, build_cardinality_between) tt
    | inr p ↦ elim (Result-cases (column_index c s name)) [
      | inl (i, e) ↦
          rw (p, build_cardinality_between)
            (rw (e, build_cardinality_between)
              (cardinality_of_kind-Fits c law N s name low high i (field_type s i) _
                (column_index-HasKind c law s name i e)))
      | inr (m, e) ↦ rw (p, build_cardinality_between) (rw (e, build_cardinality_between) tt)
    ]
  ]

  build_freshness-Fits :
      (s : Schema) (name : String) (within : ℤ) → Fits c N s 0 (build_freshness c name within s)
  unfolding build_freshness
  build_freshness-Fits s name within = elim (Bool-cases (ltb_ℤ within (pos 0))) [
    | inl p ↦ rw (p, build_freshness) tt
    | inr p ↦ elim (Result-cases (column_index c s name)) [
      | inl (i, e) ↦
          rw (p, build_freshness)
            (rw (e, build_freshness)
              (freshness_of_kind-Fits c law N s name within i (field_type s i) _
                (column_index-HasKind c law s name i e)))
      | inr (m, e) ↦ rw (p, build_freshness) (rw (e, build_freshness) tt)
    ]
  ]

  -- No value obeys `N`, for the column of a percentile that the build does not refuse.
  abbrev pub IsReady : Assertion F DataType → Schema → Type 0
  IsReady (Assertion.percentile_between name p low high) s =
      is_error (build c (Assertion.percentile_between name p low high) s) ≡ false
      → (i : ℕ) → index_of s name ≡ some i
      → N i []
  IsReady _ s = Unit

  pub IsReady-pure : (a : Assertion F DataType) (s : Schema) → ((i : ℕ) → N i []) → IsReady a s
  IsReady-pure (Assertion.percentile_between name p low high) s h = λ made i found. h i
  IsReady-pure _ s h = tt

  build_percentile-Fits :
      (s : Schema) (name : String) (p low high : F)
      → IsReady (Assertion.percentile_between name p low high) s
      → Fits c N s 0 (build_percentile_between c name p low high s)
  unfolding build build_percentile_between
  build_percentile-Fits s name p low high ready =
      elim (Bool-cases (not (fl.is_finite p) || not (in_unit p))) [
        | inl t ↦ rw (t, build_percentile_between) tt
        | inr t ↦ elim (Result-cases (column_index c s name)) [
          | inl (i, e) ↦
              let (f, at, _) = column_index-HasKind c law s name i e in
              elim (Bool-cases (is_supported_numeric (kind (field_type s i)))) [
                | inl q ↦
                    rw (t, build_percentile_between)
                      (rw (e, build_percentile_between)
                        (rw (q, build_percentile_between)
                          (
                            (f, at),
                            ground arith,
                            omega arith,
                            ready
                                (rw (t, build_percentile_between)
                                  (rw (e, build_percentile_between)
                                    (rw (q, build_percentile_between) refl)))
                                i (column_index-found c s name i e),
                          )))
                | inr q ↦
                    rw (t, build_percentile_between)
                      (rw (e, build_percentile_between) (rw (q, build_percentile_between) tt))
              ]
          | inr (m, e) ↦ rw (t, build_percentile_between) (rw (e, build_percentile_between) tt)
        ]
      ]

  -- Whatever the assertion and the schema, what is built fits.
  pub build-Fits :
      (a : Assertion F DataType) (s : Schema) → IsReady a s → Fits c N s 0 (build c a s)
  unfolding build
  build-Fits (Assertion.not_null name) s ready = build_not_null-Fits s name
  build-Fits (Assertion.unique name) s ready = build_unique-Fits s name
  build-Fits (Assertion.unique_group names) s ready = build_unique_group-Fits s names
  build-Fits (Assertion.between name low high) s ready = build_between-Fits s name low high
  build-Fits (Assertion.regex name pattern') s ready = build_regex-Fits s name pattern'
  build-Fits (Assertion.enum name allowed) s ready = build_enum-Fits s name allowed
  build-Fits (Assertion.row_count low high) s ready = build_row_count-Fits s low high
  build-Fits (Assertion.freshness name within) s ready = build_freshness-Fits s name within
  build-Fits (Assertion.percentile_between name p low high) s ready =
      build_percentile-Fits s name p low high ready
  build-Fits (Assertion.cardinality_between name low high) s ready =
      build_cardinality-Fits s name low high
  build-Fits (Assertion.schema_match expected) s ready = build_schema_match-Fits s expected
