-- ===== src/Scan/Conform.antt =====
-- Accumulators that fit a schema, and why no batch of that schema makes them panic.
pub mod Reads
pub mod Updates
pub mod Builds
pub mod Kinds
pub mod Gathered
use ematix_probe.Prelude.{ℕ, ℤ, ◌≤◌, ◌≡◌, String, true, Option, some, List, get_elem?, length, All}
use ematix_probe.Float.{Float, in_unit}
use ematix_probe.Crates.{IntType, TimeUnit, Kind, Crates}
use ematix_probe.Scan.Acc.{Acc}
use ematix_probe.Scan.Build.{is_key_type}

module _ {F : Type 0} (c : Crates F) where
  open c use {DataType, Schema, Regex, kind, fields}

  -- the schema has a field at the index; of that kind; of a type that a key can have
  abbrev pub HasField : Schema → ℕ → Type 0
  HasField s i = (f : String × DataType) × (get_elem? (fields s) i ≡ some f)

  abbrev pub HasKind : Schema → ℕ → Kind → Type 0
  HasKind s i k = (f : String × DataType) × (get_elem? (fields s) i ≡ some f) × (kind f.1 ≡ k)

  abbrev pub HasKey : Schema → ℕ → Type 0
  HasKey s i =
      (f : String × DataType) × (get_elem? (fields s) i ≡ some f) × (is_key_type (kind f.1) ≡ true)

  module _ ⦃fl : Float F⦄ (N : ℕ → List F → Type 0) where
    -- The accumulator reads columns that the schema has, of the types that it downcasts them to,
    -- and holds at most `n` values. What a percentile holds of its column obeys `N`.
    abbrev pub Fits : Schema → ℕ → Acc F Regex → Type 0
    Fits s n (Acc.not_null _ i _) = HasField s i
    Fits s n (Acc.unique_i64 _ i _ _) = HasKind s i (Kind.int IntType.int64)
    Fits s n (Acc.unique_str _ i _ _) = HasKind s i Kind.utf8
    Fits s n (Acc.unique_composite _ is _ _) = All (HasKey s) is
    Fits s n (Acc.between _ i _ _ _) = HasField s i
    Fits s n (Acc.regex _ i _ _ _) = HasKind s i Kind.utf8
    Fits s n (Acc.enum _ i _ _ _) = HasKind s i Kind.utf8
    Fits s n (Acc.row_count _ _ _) = Unit
    Fits s n (Acc.freshness _ i u _ _) = HasKind s i (Kind.timestamp u)
    Fits s n (Acc.percentile_between _ i p _ _ vs) =
        HasField s i × (in_unit p ≡ true) × (length vs ≤ n) × N i vs
    Fits s n (Acc.cardinality_i64 _ i _ _ _) = HasKind s i (Kind.int IntType.int64)
    Fits s n (Acc.cardinality_str _ i _ _ _) = HasKind s i Kind.utf8
    Fits s n (Acc.schema_match _ _) = Unit
    Fits s n (Acc.error _) = Unit
