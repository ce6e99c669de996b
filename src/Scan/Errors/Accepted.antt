-- ===== src/Scan/Errors/Accepted.antt =====
-- Columns, patterns and fields that the build accepts.
use ematix_probe.Prelude.{
  ℕ, suc, ℤ, ◌≡◌, refl, String, true, false, Option, List, [], ◌∷◌, arith, string_eq,
}
use ematix_probe.Float.{Float}
use ematix_probe.Crates.{ok, err, IntType, Kind, Crates}
use ematix_probe.Scan.Build.{
  match_fields, is_key_type, unique_of_kind, regex_of_kind, enum_of_kind, freshness_of_kind,
  cardinality_of_kind,
}
use ematix_probe.Scan.Errors.{is_utf8, is_timestamp, is_error}

module _ {F : Type 0} (c : Crates F) ⦃fl : Float F⦄ where
  open c use {DataType, Schema, RecordBatch, Regex, index_of, field_type, kind, regex_new}

  pub unique_of_kind-accepted :
      (name : String) (i : ℕ) (dt : DataType) (k : Kind)
      → is_key_type k ≡ true
      → is_error (unique_of_kind c name i dt k) ≡ false
  unfolding unique_of_kind
  unique_of_kind-accepted name i dt (Kind.int IntType.int64) h = refl
  unique_of_kind-accepted name i dt Kind.utf8 h = refl
  unique_of_kind-accepted name i dt (Kind.int IntType.int8) h = cc
  unique_of_kind-accepted name i dt (Kind.int IntType.int16) h = cc
  unique_of_kind-accepted name i dt (Kind.int IntType.int32) h = cc
  unique_of_kind-accepted name i dt (Kind.int IntType.uint8) h = cc
  unique_of_kind-accepted name i dt (Kind.int IntType.uint16) h = cc
  unique_of_kind-accepted name i dt (Kind.int IntType.uint32) h = cc
  unique_of_kind-accepted name i dt (Kind.int IntType.uint64) h = cc
  unique_of_kind-accepted name i dt _ h = cc

  pub cardinality_of_kind-accepted :
      (name : String) (low high : Option ℤ) (i : ℕ) (dt : DataType) (k : Kind)
      → is_key_type k ≡ true
      → is_error (cardinality_of_kind c name low high i dt k) ≡ false
  unfolding cardinality_of_kind
  cardinality_of_kind-accepted name low high i dt (Kind.int IntType.int64) h = refl
  cardinality_of_kind-accepted name low high i dt Kind.utf8 h = refl
  cardinality_of_kind-accepted name low high i dt (Kind.int IntType.int8) h = cc
  cardinality_of_kind-accepted name low high i dt (Kind.int IntType.int16) h = cc
  cardinality_of_kind-accepted name low high i dt (Kind.int IntType.int32) h = cc
  cardinality_of_kind-accepted name low high i dt (Kind.int IntType.uint8) h = cc
  cardinality_of_kind-accepted name low high i dt (Kind.int IntType.uint16) h = cc
  cardinality_of_kind-accepted name low high i dt (Kind.int IntType.uint32) h = cc
  cardinality_of_kind-accepted name low high i dt (Kind.int IntType.uint64) h = cc
  cardinality_of_kind-accepted name low high i dt _ h = cc

  pub enum_of_kind-accepted :
      (name : String) (allowed : List String) (i : ℕ) (dt : DataType) (k : Kind)
      → is_utf8 k ≡ true
      → is_error (enum_of_kind c name allowed i dt k) ≡ false
  unfolding enum_of_kind
  enum_of_kind-accepted name allowed i dt Kind.utf8 h = refl
  enum_of_kind-accepted name allowed i dt _ h = cc

  pub freshness_of_kind-accepted :
      (name : String) (within : ℤ) (i : ℕ) (dt : DataType) (k : Kind)
      → is_timestamp k ≡ true
      → is_error (freshness_of_kind c name within i dt k) ≡ false
  unfolding freshness_of_kind
  freshness_of_kind-accepted name within i dt (Kind.timestamp u) h = refl
  freshness_of_kind-accepted name within i dt _ h = cc

  pub regex_of_kind-accepted :
      (name pattern' : String) (i : ℕ) (dt : DataType) (k : Kind) (re : Regex)
      → is_utf8 k ≡ true
      → regex_new pattern' ≡ ok re
      → is_error (regex_of_kind c name pattern' i dt k) ≡ false
  unfolding regex_of_kind
  regex_of_kind-accepted name pattern' i dt Kind.utf8 re h e = rw (e, regex_of_kind) refl
  regex_of_kind-accepted name pattern' i dt _ re h e = cc

  pub match_fields-accepted :
      (i : ℕ) (exps acts : List (String × DataType)) → is_error (match_fields c i exps acts) ≡ false
  unfolding match_fields
  match_fields-accepted i [] acts = refl
  match_fields-accepted i (e ∷ exps) [] = refl
  match_fields-accepted i ((en, et) ∷ exps) ((an, at) ∷ acts) =
      ground (arith, match_fields-accepted (suc i) exps acts)

  pub regex_of_kind-invalid :
      (name pattern' : String) (i : ℕ) (dt : DataType) (k : Kind) (e : String)
      → regex_new pattern' ≡ err e
      → is_error (regex_of_kind c name pattern' i dt k) ≡ true
  unfolding regex_of_kind
  regex_of_kind-invalid name pattern' i dt Kind.utf8 e broken = rw (broken, regex_of_kind) refl
  regex_of_kind-invalid name pattern' i dt (Kind.int t) e broken = refl
  regex_of_kind-invalid name pattern' i dt Kind.float32 e broken = refl
  regex_of_kind-invalid name pattern' i dt Kind.float64 e broken = refl
  regex_of_kind-invalid name pattern' i dt (Kind.timestamp u) e broken = refl
  regex_of_kind-invalid name pattern' i dt Kind.other e broken = refl
