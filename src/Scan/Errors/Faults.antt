-- ===== src/Scan/Errors/Faults.antt =====
-- Which assertions `Acc::build` of engine/scan.rs refuses.
use ematix_probe.Prelude.{
  ℕ, pos, ◌≡◌, ◌↔◌, refl, sym, ◌∙◌, String, true, false, not, ◌&&◌, ◌||◌, Option, none, some, List,
  [], ◌∷◌, ◌++◌, arith, contains, string_eq, Option-cases, Bool-cases, inl, inr, is_none, ltb_ℤ,
}
use ematix_probe.Message.{Message}
use ematix_probe.Float.{Float, in_unit}
use ematix_probe.Data.{Assertion}
use ematix_probe.Crates.{err, Result-cases, Kind, Crates}
use ematix_probe.Scan.Build.{
  build, build_not_null, build_unique, build_unique_group, build_between, build_regex, build_enum,
  build_row_count, build_freshness, build_percentile_between, build_cardinality_between,
  build_schema_match, column_index, group_columns, is_key_type,
}
use ematix_probe.Scan.Finalize.{error_result}
use ematix_probe.Scan.Run.{outcome_of}
use ematix_probe.Scan.Errors.{
  columns_of, accepts, is_vacuous, is_utf8, is_err, IsRefused, outcome_of-refused,
}
use ematix_probe.Scan.Errors.Columns.{missing_column-IsRefused}
use ematix_probe.Scan.Errors.Arguments.{vacuous-IsRefused}
use ematix_probe.Scan.Errors.Types.{unsupported_type-IsRefused}
use ematix_probe.Scan.Errors.Accepted.{
  unique_of_kind-accepted, cardinality_of_kind-accepted, enum_of_kind-accepted,
  freshness_of_kind-accepted, regex_of_kind-accepted, match_fields-accepted, regex_of_kind-invalid,
}

module _ {F : Type 0} (c : Crates F) ⦃fl : Float F⦄ where
  open c use {DataType, Schema, RecordBatch, Regex, index_of, field_type, kind, regex_new}

  -- What can be wrong with an assertion, for a schema: vacuous arguments, a column that is not there,
  -- a column of a type that it does not take, or a pattern that does not compile.
  pub data Fault (a : Assertion F DataType) (schema : Schema) : Type 0 where
    vacuous : is_vacuous a ≡ true → Fault a schema
    missing :
        (column : String)
        → contains (columns_of a) column ≡ true
        → index_of schema column ≡ none
        → Fault a schema
    unsupported :
        (column : String) (k : ℕ)
        → contains (columns_of a) column ≡ true
        → index_of schema column ≡ some k
        → accepts a (kind (field_type schema k)) ≡ false
        → Fault a schema
    invalid :
        (column pattern' e : String)
        → a ≡ Assertion.regex column pattern'
        → regex_new pattern' ≡ err e
        → Fault a schema

  -- The first name of a list is in it.
  named : (name : String) (names : List String) → contains (name ∷ names) name ≡ true
  named name names = ground (arith, string_eq.beq_iff name name)

  -- A column that an assertion names is missing, or it is at hand.
  fault_at :
      (a : Assertion F DataType) (schema : Schema) (name : String)
      → contains (columns_of a) name ≡ true
      → ((k : ℕ) → index_of schema name ≡ some k → Fault a schema)
      → Fault a schema
  fault_at a schema name h found = elim (Option-cases (index_of schema name)) [
    | inl e ↦ missing name h e
    | inr (k, e) ↦ found k e
  ]

  -- A column at hand is of a type that is not taken, or the test of its type has passed.
  fault_of :
      (a : Assertion F DataType) (schema : Schema) (name : String) (k : ℕ)
      → contains (columns_of a) name ≡ true
      → index_of schema name ≡ some k
      → (accepts a (kind (field_type schema k)) ≡ true → Fault a schema)
      → Fault a schema
  fault_of a schema name k h e taken = elim (Bool-cases (accepts a (kind (field_type schema k)))) [
    | inl t ↦ taken t
    | inr t ↦ unsupported name k h e t
  ]

  group_columns-Fault :
      (schema : Schema) (a : Assertion F DataType) (names : List String) (idxs : List ℕ)
      → ((name : String) → contains names name ≡ true → contains (columns_of a) name ≡ true)
      → ((k : Kind) → accepts a k ≡ is_key_type k)
      → is_err (group_columns c schema names idxs) ≡ true
      → Fault a schema
  unfolding group_columns column_index
  group_columns-Fault schema a [] idxs h same refused = cc
  group_columns-Fault schema a (name ∷ names) idxs h same refused =
      fault_at a schema name (h name (named name names)) λ k e.
        fault_of a schema name k (h name (named name names)) e λ taken.
          let key : is_key_type (kind (field_type schema k)) ≡ true =
            sym (same (kind (field_type schema k))) ∙ taken in
          group_columns-Fault schema a names (idxs ++ k ∷ [])
            (λ other there. h other (ground arith)) same (ground arith)

  refused-Fault :
      (a : Assertion F DataType) (schema : Schema) → IsRefused c a schema → Fault a schema
  unfolding build build_not_null build_unique build_unique_group build_between build_regex
      build_enum build_row_count build_freshness build_percentile_between build_cardinality_between
      build_schema_match column_index
  refused-Fault (Assertion.not_null name) schema h =
      fault_at (Assertion.not_null name) schema name (named name []) λ k e. absurd (ground arith)
  refused-Fault (Assertion.between name low high) schema h =
      fault_at (Assertion.between name low high) schema name (named name [])
        λ k e. absurd (ground arith)
  refused-Fault (Assertion.unique name) schema h =
      let a : Assertion F DataType = Assertion.unique name in
      fault_at a schema name (named name []) λ k e.
        fault_of a schema name k (named name []) e λ taken. absurd (
          ground (
            arith,
            unique_of_kind-accepted c name k (field_type schema k) (kind (field_type schema k))
                taken,
          ))
  refused-Fault (Assertion.unique_group []) schema h = vacuous refl
  refused-Fault (Assertion.unique_group (n ∷ names)) schema h =
      group_columns-Fault schema (Assertion.unique_group (n ∷ names)) (n ∷ names) []
        (λ name there. there) (λ k. refl) (ground arith)
  refused-Fault (Assertion.regex name pattern') schema h =
      let a : Assertion F DataType = Assertion.regex name pattern' in
      fault_at a schema name (named name []) λ k e.
        fault_of a schema name k (named name []) e λ taken.
          elim (Result-cases (regex_new pattern')) [
            | inl (re, compiled) ↦ absurd (
                ground (
                  arith,
                  regex_of_kind-accepted c name pattern' k (field_type schema k)
                      (kind (field_type schema k)) re taken compiled,
                ))
            | inr (m, broken) ↦ invalid name pattern' m refl broken
          ]
  refused-Fault (Assertion.enum name []) schema h = vacuous refl
  refused-Fault (Assertion.enum name (v ∷ allowed)) schema h =
      let a : Assertion F DataType = Assertion.enum name (v ∷ allowed) in
      fault_at a schema name (named name []) λ k e.
        fault_of a schema name k (named name []) e λ taken. absurd (
          ground (
            arith,
            enum_of_kind-accepted c name (v ∷ allowed) k (field_type schema k)
                (kind (field_type schema k)) taken,
          ))
  refused-Fault (Assertion.row_count low high) schema h = vacuous (ground arith)
  refused-Fault (Assertion.freshness name within) schema h =
      let a : Assertion F DataType = Assertion.freshness name within in
      elim (Bool-cases (ltb_ℤ within (pos 0))) [
        | inl t ↦ vacuous t
        | inr t ↦ fault_at a schema name (named name []) λ k e.
            fault_of a schema name k (named name []) e λ taken. absurd (
              ground (
                arith,
                freshness_of_kind-accepted c name within k (field_type schema k)
                    (kind (field_type schema k)) taken,
              ))
      ]
  refused-Fault (Assertion.percentile_between name p low high) schema h =
      let a : Assertion F DataType = Assertion.percentile_between name p low high in
      elim (Bool-cases (not (fl.is_finite p) || not (in_unit p))) [
        | inl t ↦ vacuous t
        | inr t ↦
            fault_at a schema name (named name [])
              λ k e. fault_of a schema name k (named name []) e λ taken. absurd (ground arith)
      ]
  refused-Fault (Assertion.cardinality_between name low high) schema h =
      let a : Assertion F DataType = Assertion.cardinality_between name low high in
      elim (Bool-cases (is_none low && is_none high)) [
        | inl t ↦ vacuous t
        | inr t ↦ fault_at a schema name (named name []) λ k e.
            fault_of a schema name k (named name []) e λ taken. absurd (
              ground (
                arith,
                cardinality_of_kind-accepted c name low high k (field_type schema k)
                    (kind (field_type schema k)) taken,
              ))
      ]
  refused-Fault (Assertion.schema_match []) schema h = vacuous refl
  refused-Fault (Assertion.schema_match (f ∷ expected)) schema h =
      absurd (ground (arith, match_fields-accepted c 0 (f ∷ expected) (c.fields schema)))

  -- A pattern that does not compile is refused, whatever the column is.
  invalid-IsRefused :
      (column pattern' e : String) (schema : Schema)
      → regex_new pattern' ≡ err e
      → IsRefused c (Assertion.regex column pattern') schema
  unfolding build build_regex column_index
  invalid-IsRefused column pattern' e schema broken = elim (Option-cases (index_of schema column)) [
    | inl gone ↦ ground arith
    | inr (k, here) ↦ elim (Bool-cases (is_utf8 (kind (field_type schema k)))) [
      | inl text ↦ ground (
        arith,
        regex_of_kind-invalid c column pattern' k (field_type schema k) (kind (field_type schema k))
            e broken,
      )
      | inr other ↦
          unsupported_type-IsRefused c (Assertion.regex column pattern') schema column k
            (named column []) here other
    ]
  ]

  Fault-IsRefused :
      (a : Assertion F DataType) (schema : Schema) → Fault a schema → IsRefused c a schema
  Fault-IsRefused a schema (vacuous h) = vacuous-IsRefused c a schema h
  Fault-IsRefused a schema (missing column h e) = missing_column-IsRefused c a schema column h e
  Fault-IsRefused a schema (unsupported column k h e t) =
      unsupported_type-IsRefused c a schema column k h e t
  Fault-IsRefused a schema (invalid column pattern' e same broken) =
      rw same (invalid-IsRefused column pattern' e schema broken)

  module _ (clock : Option ℕ) (i : ℕ) (a : Assertion F DataType) (schema : Schema)
      (batches : List RecordBatch) where
    -- The build of an assertion gives an error exactly when the assertion has a fault for the schema:
    -- its arguments are vacuous, it names a column that the schema does not have or one of a type
    -- that it does not take, or its pattern does not compile. Its outcome is then an `Error`,
    -- whatever the batches hold.
    pub IsRefused-iff_Fault :
        (IsRefused c a schema ↔ Fault a schema)
        × (Fault a schema
            → (m : Message F) × (outcome_of c clock i a schema batches ≡ some (error_result i m)))
    IsRefused-iff_Fault = (
      (refused-Fault a schema, Fault-IsRefused a schema),
      λ h. outcome_of-refused c clock i a schema batches (Fault-IsRefused a schema h),
    )
