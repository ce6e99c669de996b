-- ===== src/Scan/Acc.antt =====
-- `enum CompositeKeyPart` and `enum Acc` of engine/scan.rs. `R` is the regex crate's `Regex`.
use ematix_probe.Prelude.{
  ℕ, ℤ, String, ◌≡◌, ◌↔◌, Bool, true, false, Option, List, arith, Eq, HashSet, int_eq, string_eq,
}
use ematix_probe.Message.{Message}
use ematix_probe.Data.{Verdict}
use ematix_probe.Crates.{TimeUnit}

pub data CompositeKeyPart : Type 0 where
  i64 : ℤ → CompositeKeyPart
  str : String → CompositeKeyPart
  null : CompositeKeyPart

abbrev pub part_beq : CompositeKeyPart → CompositeKeyPart → Bool
part_beq (i64 a) (i64 b) = int_eq.beq a b
part_beq (str a) (str b) = string_eq.beq a b
part_beq null null = true
part_beq _ _ = false

pub part_beq_iff : (a b : CompositeKeyPart) → (part_beq a b ≡ true) ↔ (a ≡ b)
part_beq_iff (i64 a) (i64 b) = ground (arith, int_eq.beq_iff a b)
part_beq_iff (str a) (str b) = ground (arith, string_eq.beq_iff a b)
part_beq_iff null null = ground arith
part_beq_iff (i64 _) (str _) = ground arith
part_beq_iff (i64 _) null = ground arith
part_beq_iff (str _) (i64 _) = ground arith
part_beq_iff (str _) null = ground arith
part_beq_iff null (i64 _) = ground arith
part_beq_iff null (str _) = ground arith

-- `#[derive(PartialEq, Eq)]`
instance abbrev pub part_eq : Eq CompositeKeyPart
part_eq = record { beq = part_beq; beq_iff = part_beq_iff }

pub data Acc (F R : Type 0) : Type 0 where
  not_null : (column : String) (col_idx null_count : ℕ) → Acc F R
  unique_i64 : (column : String) (col_idx : ℕ) (seen : HashSet ℤ) (dup_count : ℕ) → Acc F R
  unique_str : (column : String) (col_idx : ℕ) (seen : HashSet String) (dup_count : ℕ) → Acc F R
  unique_composite :
      (columns : List String) (col_idxs : List ℕ) (seen : HashSet (List CompositeKeyPart))
      (dup_count : ℕ)
      → Acc F R
  between : (column : String) (col_idx : ℕ) (low high : F) (oob_count : ℕ) → Acc F R
  regex : (column : String) (col_idx : ℕ) (re : R) (pattern' : String) (miss_count : ℕ) → Acc F R
  enum :
      (column : String) (col_idx : ℕ) (allowed : HashSet String) (allowed_len miss_count : ℕ)
      → Acc F R
  row_count : (low high : Option ℤ) (count : ℤ) → Acc F R
  freshness :
      (column : String) (col_idx : ℕ) (unit : TimeUnit) (within_seconds : ℤ) (max_value : Option ℤ)
      → Acc F R
  percentile_between : (column : String) (col_idx : ℕ) (p low high : F) (values : List F) → Acc F R
  cardinality_i64 :
      (column : String) (col_idx : ℕ) (low high : Option ℤ) (seen : HashSet ℤ) → Acc F R
  cardinality_str :
      (column : String) (col_idx : ℕ) (low high : Option ℤ) (seen : HashSet String) → Acc F R
  schema_match : (verdict : Verdict) (message : Option (Message F)) → Acc F R
  error : (message : Message F) → Acc F R
