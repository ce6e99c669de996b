-- ===== src/Scan/Conform/Kinds.antt =====
-- What an arm of `Acc::build` gives for a column of some type fits the schema.
use ematix_probe.Prelude.{
  ℕ, suc, ℤ, ◌≡◌, refl, inl, inr, String, Option, some, List, [], ◌∷◌, ◌++◌, arith, All, All-append,
  Option-cases, Bool-cases, ◌==◌, string_eq,
}
use ematix_probe.Float.{Float}
use ematix_probe.Crates.{ok, Result-cases, IntType, Kind, Crates}
use ematix_probe.Crates.Laws.{IsArrow}
use ematix_probe.Scan.Build.{
  is_key_type, column_index, unique_of_kind, group_columns, regex_of_kind, enum_of_kind,
  match_fields, cardinality_of_kind, freshness_of_kind,
}
use ematix_probe.Scan.Conform.{Fits, HasKind, HasKey}

module _ {F : Type 0} (c : Crates F) where
  open c use {Schema, index_of}

  pub column_index-found :
      (s : Schema) (name : String) (i : ℕ) → column_index c s name ≡ ok i → index_of s name ≡ some i
  unfolding column_index
  column_index-found s name i h = elim (Option-cases (index_of s name)) [
    | inl e ↦ ground arith
    | inr (j, e) ↦ ground arith
  ]

module _ {F : Type 0} (c : Crates F) (law : IsArrow c) ⦃fl : Float F⦄ where
  open c use {DataType, Schema, Regex, kind, fields, field_type, index_of}

  -- What an index of `column_index` is worth.
  pub column_index-HasKind :
      (s : Schema) (name : String) (i : ℕ)
      → column_index c s name ≡ ok i
      → HasKind c s i (kind (field_type s i))
  unfolding column_index
  column_index-HasKind s name i h = elim (Option-cases (index_of s name)) [
    | inl e ↦ ground arith
    | inr (j, e) ↦
        let same : j ≡ i = ground arith in
        ((name, field_type s i), law.index_of-found s name i (rw (← same) e), refl)
  ]

  pub group_columns-HasKey :
      (s : Schema) (names : List String) (is js : List ℕ)
      → All (HasKey c s) is
      → group_columns c s names is ≡ ok js
      → All (HasKey c s) js
  unfolding group_columns
  group_columns-HasKey s [] is js h e = let same : is ≡ js = ground arith in rw (← same) h
  group_columns-HasKey s (name ∷ names) is js h e = elim (Result-cases (column_index c s name)) [
    | inl (i, found) ↦
        let (f, at, typed) = column_index-HasKind s name i found in
        elim (Bool-cases (is_key_type (kind (field_type s i)))) [
          | inl key ↦
              group_columns-HasKey s names (is ++ i ∷ []) js
                (All-append (HasKey c s) is (i ∷ []) h ((f, at, rw typed key), tt)) (ground arith)
          | inr key ↦ ground arith
        ]
    | inr (m, failed) ↦ ground arith
  ]

module _ {F : Type 0} (c : Crates F) (law : IsArrow c) ⦃fl : Float F⦄
    (N : ℕ → List F → Type 0) where
  open c use {DataType, Schema, Regex, kind, fields, field_type, index_of}

  pub unique_of_kind-Fits :
      (s : Schema) (name : String) (i : ℕ) (dt : DataType) (k : Kind)
      → HasKind c s i k
      → Fits c N s 0 (unique_of_kind c name i dt k)
  unfolding unique_of_kind
  unique_of_kind-Fits s name i dt (Kind.int IntType.int64) h = h
  unique_of_kind-Fits s name i dt Kind.utf8 h = h
  unique_of_kind-Fits s name i dt _ h = tt

  pub regex_of_kind-Fits :
      (s : Schema) (name pattern' : String) (i : ℕ) (dt : DataType) (k : Kind)
      → HasKind c s i k
      → Fits c N s 0 (regex_of_kind c name pattern' i dt k)
  unfolding regex_of_kind
  regex_of_kind-Fits s name pattern' i dt Kind.utf8 h = elim (Result-cases (c.regex_new pattern')) [
    | inl (re, e) ↦ rw (e, regex_of_kind) h
    | inr (m, e) ↦ rw (e, regex_of_kind) tt
  ]
  regex_of_kind-Fits s name pattern' i dt _ h = tt

  pub enum_of_kind-Fits :
      (s : Schema) (name : String) (allowed : List String) (i : ℕ) (dt : DataType) (k : Kind)
      → HasKind c s i k
      → Fits c N s 0 (enum_of_kind c name allowed i dt k)
  unfolding enum_of_kind
  enum_of_kind-Fits s name allowed i dt Kind.utf8 h = h
  enum_of_kind-Fits s name allowed i dt _ h = tt

  pub cardinality_of_kind-Fits :
      (s : Schema) (name : String) (low high : Option ℤ) (i : ℕ) (dt : DataType) (k : Kind)
      → HasKind c s i k
      → Fits c N s 0 (cardinality_of_kind c name low high i dt k)
  unfolding cardinality_of_kind
  cardinality_of_kind-Fits s name low high i dt (Kind.int IntType.int64) h = h
  cardinality_of_kind-Fits s name low high i dt Kind.utf8 h = h
  cardinality_of_kind-Fits s name low high i dt _ h = tt

  pub freshness_of_kind-Fits :
      (s : Schema) (name : String) (within : ℤ) (i : ℕ) (dt : DataType) (k : Kind)
      → HasKind c s i k
      → Fits c N s 0 (freshness_of_kind c name within i dt k)
  unfolding freshness_of_kind
  freshness_of_kind-Fits s name within i dt (Kind.timestamp u) h = h
  freshness_of_kind-Fits s name within i dt _ h = tt

  pub match_fields-Fits :
      (s : Schema) (i : ℕ) (exps acts : List (String × DataType))
      → Fits c N s 0 (match_fields c i exps acts)
  unfolding match_fields
  match_fields-Fits s i [] acts = tt
  match_fields-Fits s i (e ∷ exps) [] = tt
  match_fields-Fits s i ((en, et) ∷ exps) ((an, at) ∷ acts) = elim (Bool-cases (en == an)) [
    | inl p ↦ elim (Bool-cases (c.type_eq et at)) [
      | inl q ↦ rw (p, match_fields) (rw (q, match_fields) (match_fields-Fits s (suc i) exps acts))
      | inr q ↦ rw (p, match_fields) (rw (q, match_fields) tt)
    ]
    | inr p ↦ rw (p, match_fields) tt
  ]
