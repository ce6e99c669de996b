-- ===== src/Scan/Order/Rearranged.antt =====
-- Two lists of batches with the same rows in another order, for one assertion of engine/scan.rs.
use ematix_probe.Prelude.{
  ℕ, pos, ◌<◌, ◌^◌, ◌≡◌, ◌≢◌, ◌⊎◌, refl, true, false, ◌&&◌, Option, some, List, [], length, sum,
  map, somes, is_none, ltb_ℤ, All, int_eq, string_eq, list_eq, IsI64,
}
use ematix_probe.Float.{Float, in_unit}
use ematix_probe.Data.{Assertion, AssertionResult}
use ematix_probe.Data.Verdicts.{Decides}
use ematix_probe.Data.Alike.{Decides-Agree}
use ematix_probe.Crates.{ok, Kind, TimeUnit, Crates}
use ematix_probe.Scan.Acc.{part_eq}
use ematix_probe.Scan.Build.{group_columns, is_supported_numeric}
use ematix_probe.Scan.Update.{string_column, timestamp_column, row_keys}
use ematix_probe.Scan.Finalize.{error_result}
use ematix_probe.Scan.Arms.{number_column, null_column}
use ematix_probe.Scan.Run.{gather, outcome_of}
use ematix_probe.Scan.Errors.{IsRefused, outcome_of-refused}
use ematix_probe.Scan.Decide.{Decides-of_iff}
use ematix_probe.Scan.Decide.Keyed.{Keyed, kind_of, cells_of}
use ematix_probe.Scan.Decide.Freshness.{age}
use ematix_probe.Scan.Sorting.{NoNan}
use ematix_probe.Scan.Order.Items.{SameItems}

module _ {F : Type 0} (c : Crates F) ⦃fl : Float F⦄ (clock : ℕ → Option ℕ) (sch : c.Schema)
    (bs cs : List c.RecordBatch) where
  open c use {DataType, RecordBatch, Regex, kind, index_of, field_type, regex_new, num_rows}

  -- What a read gives of the two lists of batches holds the same items, fewer than 2^53.
  abbrev pub IsRearranged :
      {A : Type 0} → (RecordBatch → Option (List A)) → (List A → Type 0) → Type 0
  IsRearranged {A} read P =
      (xs : List A) × (ys : List A) × (gather read bs ≡ some xs)
      × (gather read cs ≡ some ys)
      × SameItems xs ys
      × (length xs < 2 ^ 53)
      × P xs

  -- What the assertion reads of the two lists of batches is the same, in another order. Its arguments
  -- and its column are such that it is not refused.
  abbrev pub Rearranges : Assertion F DataType → Type 0
  Rearranges (Assertion.not_null column) =
      (k : ℕ) × (nulls : List ℕ) × (others : List ℕ) × (index_of sch column ≡ some k)
      × (gather (null_column c k) bs ≡ some nulls)
      × (gather (null_column c k) cs ≡ some others)
      × (sum nulls ≡ sum others)
      × (sum nulls < 2 ^ 53)
  Rearranges (Assertion.unique column) =
      (k : ℕ) × (t : Keyed) × (index_of sch column ≡ some k)
      × (kind (field_type sch k) ≡ kind_of t)
      × IsRearranged (cells_of c t k) (λ xs. Unit)
  Rearranges (Assertion.unique_group columns) =
      (idxs : List ℕ) × (columns ≢ [])
      × (group_columns c sch columns [] ≡ ok idxs)
      × IsRearranged (row_keys c idxs) (λ xs. Unit)
  Rearranges (Assertion.between column low high) =
      (k : ℕ) × (index_of sch column ≡ some k) × IsRearranged (number_column c k) (λ xs. Unit)
  Rearranges (Assertion.regex column pattern') =
      (k : ℕ) × (re : Regex) × (index_of sch column ≡ some k)
      × (kind (field_type sch k) ≡ Kind.utf8)
      × (regex_new pattern' ≡ ok re)
      × IsRearranged (string_column c k) (λ xs. Unit)
  Rearranges (Assertion.enum column allowed) =
      (k : ℕ) × (allowed ≢ [])
      × (index_of sch column ≡ some k)
      × (kind (field_type sch k) ≡ Kind.utf8)
      × IsRearranged (string_column c k) (λ xs. Unit)
  Rearranges (Assertion.row_count low high) =
      ((is_none low && is_none high) ≡ false)
      × (sum (map num_rows bs) ≡ sum (map num_rows cs))
      × (sum (map num_rows bs) < 2 ^ 53)
  Rearranges (Assertion.freshness column within) =
      (k : ℕ) × (unit : TimeUnit) × (ltb_ℤ within (pos 0) ≡ false)
      × (index_of sch column ≡ some k)
      × (kind (field_type sch k) ≡ Kind.timestamp unit)
      × IsRearranged (timestamp_column c unit k)
          (λ xs. (i : ℕ) → All (λ v. IsI64 (age (clock i) unit within v)) (somes xs))
  Rearranges (Assertion.cardinality_between column low high) =
      (k : ℕ) × (t : Keyed) × ((is_none low && is_none high) ≡ false)
      × (index_of sch column ≡ some k)
      × (kind (field_type sch k) ≡ kind_of t)
      × IsRearranged (cells_of c t k) (λ xs. Unit)
  Rearranges (Assertion.schema_match fields) = fields ≢ []
  Rearranges (Assertion.percentile_between column p low high) =
      (k : ℕ) × (fl.is_finite p ≡ true)
      × (in_unit p ≡ true)
      × (index_of sch column ≡ some k)
      × (is_supported_numeric (kind (field_type sch k)) ≡ true)
      × IsRearranged (number_column c k) (λ xs. (somes xs ≢ []) × NoNan (somes xs))

  -- The build refuses the assertion, or it reads the same items of both lists of batches.
  abbrev pub IsUnordered : Assertion F DataType → Type 0
  IsUnordered a = IsRefused c a sch ⊎ Rearranges a

  -- Both lists of batches give a result, with the same index and the same verdict.
  abbrev pub Coincide : ℕ → Assertion F DataType → Type 0
  Coincide i a =
      (r : AssertionResult F) × (q : AssertionResult F) × (outcome_of c (clock i) i a sch bs
        ≡ some r)
      × (outcome_of c (clock i) i a sch cs ≡ some q)
      × (r.assertion_index ≡ q.assertion_index)
      × (r.verdict ≡ q.verdict)

  pub Coincide-of_iff :
      {P Q : Type 0} (i : ℕ) (a : Assertion F DataType)
      → (r : AssertionResult F) × (outcome_of c (clock i) i a sch bs ≡ some r) × Decides i r P
      → (q : AssertionResult F) × (outcome_of c (clock i) i a sch cs ≡ some q) × Decides i q Q
      → (P → Q)
      → (Q → P)
      → Coincide i a
  Coincide-of_iff i a (r, e, d) (q, f, d') to from =
      let (index, verdict) = Decides-Agree i r q d (Decides-of_iff i q from to d') in
      (r, q, e, f, index, verdict)

  pub Coincide-refused : (i : ℕ) (a : Assertion F DataType) → IsRefused c a sch → Coincide i a
  Coincide-refused i a h =
      let (m, e) = outcome_of-refused c (clock i) i a sch bs h in
      let (n, f) = outcome_of-refused c (clock i) i a sch cs h in
      (error_result i m, error_result i n, e, f, refl, refl)
