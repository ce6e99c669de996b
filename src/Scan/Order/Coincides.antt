-- ===== src/Scan/Order/Coincides.antt =====
-- Each assertion of engine/scan.rs on batches in another order.
use ematix_probe.Prelude.{
  ℕ, Option, List, arith, map, somes, contains, Distinct, int_eq, string_eq, list_eq,
}
use ematix_probe.Float.{Float, IsIeee}
use ematix_probe.Data.{Assertion}
use ematix_probe.Crates.{Crates}
use ematix_probe.Crates.Laws.{IsArrow}
use ematix_probe.Scan.Acc.{part_eq}
use ematix_probe.Scan.Run.{gather-singles}
use ematix_probe.Scan.Decide.Keyed.{Keyed, ValueOf, unique-decides}
use ematix_probe.Scan.Decide.Unique.{unique_group-decides}
use ematix_probe.Scan.Decide.Counts.{not_null-decides, between-decides, regex-decides, enum-decides}
use ematix_probe.Scan.Decide.Bounds.{row_count-decides}
use ematix_probe.Scan.Decide.Fields.{schema_match-decides}
use ematix_probe.Scan.Order.Items.{
  SameItems, SameItems-length, SameItems-sym, SameItems-somes, All-true, All-neither,
  Distinct-SameItems,
}
use ematix_probe.Scan.Order.Rearranged.{Rearranges, Coincide, Coincide-of_iff}
use ematix_probe.Scan.Order.Picks.{
  freshness-Coincide, cardinality_between-Coincide, percentile_between-Coincide,
}

module _ {F : Type 0} (c : Crates F) ⦃fl : Float F⦄ (clock : ℕ → Option ℕ) (sch : c.Schema)
    (bs cs : List c.RecordBatch) (law : IsArrow c) (ieee : IsIeee F) where
  open c use {DataType, RecordBatch, Regex, kind, index_of, field_type, regex_new, num_rows}

  pub Rearranges-Coincide :
      (i : ℕ) (a : Assertion F DataType)
      → Rearranges c clock sch bs cs a
      → Coincide c clock sch bs cs i a
  Rearranges-Coincide i (Assertion.not_null column)
        (k, nulls, others, found, read, reread, same, few) =
      Coincide-of_iff c clock sch bs cs i (Assertion.not_null column)
        (not_null-decides c (clock i) i column k sch bs found nulls read (omega arith))
        (not_null-decides c (clock i) i column k sch cs found others reread (omega arith))
        (λ h. omega arith) (λ h. omega arith)
  Rearranges-Coincide i (Assertion.unique column)
        (k, t, found, typed, (xs, ys, read, reread, h, few, _)) =
      let size = SameItems-length xs ys h in
      Coincide-of_iff c clock sch bs cs i (Assertion.unique column)
        (unique-decides c (clock i) i column k sch bs t xs found typed read (omega arith))
        (unique-decides c (clock i) i column k sch cs t ys found typed reread (omega arith))
        (Distinct-keyed t xs ys h) (Distinct-keyed t ys xs (SameItems-sym xs ys h))
    where
      Distinct-keyed :
          (t : Keyed) (xs ys : List (Option (ValueOf t)))
          → SameItems xs ys
          → Distinct (somes xs)
          → Distinct (somes ys)
      Distinct-keyed Keyed.int64 xs ys h =
          Distinct-SameItems (somes xs) (somes ys) (SameItems-somes xs ys h)
      Distinct-keyed Keyed.utf8 xs ys h =
          Distinct-SameItems (somes xs) (somes ys) (SameItems-somes xs ys h)
  Rearranges-Coincide i (Assertion.unique_group columns)
        (idxs, some_column, found, (xs, ys, read, reread, h, few, _)) =
      let size = SameItems-length xs ys h in
      Coincide-of_iff c clock sch bs cs i (Assertion.unique_group columns)
        (unique_group-decides c (clock i) i columns idxs sch bs xs some_column found read
          (omega arith))
        (unique_group-decides c (clock i) i columns idxs sch cs ys some_column found reread
          (omega arith))
        (Distinct-SameItems xs ys h) (Distinct-SameItems ys xs (SameItems-sym xs ys h))
  Rearranges-Coincide i (Assertion.between column low high)
        (k, found, (xs, ys, read, reread, h, few, _)) =
      let size = SameItems-length xs ys h in
      let values = SameItems-somes xs ys h in
      Coincide-of_iff c clock sch bs cs i (Assertion.between column low high)
        (between-decides c (clock i) i column k sch bs found low high xs read (omega arith))
        (between-decides c (clock i) i column k sch cs found low high ys reread (omega arith))
        (All-neither (λ v. fl.lt v low) (fl.lt high) (somes xs) (somes ys) values)
        (All-neither (λ v. fl.lt v low) (fl.lt high) (somes ys) (somes xs)
          (SameItems-sym (somes xs) (somes ys) values))
  Rearranges-Coincide i (Assertion.regex column pattern')
        (k, re, found, typed, compiled, (xs, ys, read, reread, h, few, _)) =
      let size = SameItems-length xs ys h in
      let values = SameItems-somes xs ys h in
      Coincide-of_iff c clock sch bs cs i (Assertion.regex column pattern')
        (regex-decides c (clock i) i column k sch bs found pattern' re xs typed compiled read
          (omega arith))
        (regex-decides c (clock i) i column k sch cs found pattern' re ys typed compiled reread
          (omega arith))
        (All-true (c.is_match re) (somes xs) (somes ys) values)
        (All-true (c.is_match re) (somes ys) (somes xs)
          (SameItems-sym (somes xs) (somes ys) values))
  Rearranges-Coincide i (Assertion.enum column allowed)
        (k, some_value, found, typed, (xs, ys, read, reread, h, few, _)) =
      let size = SameItems-length xs ys h in
      let values = SameItems-somes xs ys h in
      Coincide-of_iff c clock sch bs cs i (Assertion.enum column allowed)
        (enum-decides c (clock i) i column k sch bs found allowed xs some_value typed read
          (omega arith))
        (enum-decides c (clock i) i column k sch cs found allowed ys some_value typed reread
          (omega arith))
        (All-true (contains allowed) (somes xs) (somes ys) values)
        (All-true (contains allowed) (somes ys) (somes xs)
          (SameItems-sym (somes xs) (somes ys) values))
  Rearranges-Coincide i (Assertion.row_count low high) (bounded, same, few) =
      Coincide-of_iff c clock sch bs cs i (Assertion.row_count low high)
        (row_count-decides c (clock i) i low high sch bs bounded (map num_rows bs)
          (gather-singles num_rows bs) (omega arith))
        (row_count-decides c (clock i) i low high sch cs bounded (map num_rows cs)
          (gather-singles num_rows cs) (omega arith))
        (λ h. rw same at h) (λ h. rw same h)
  Rearranges-Coincide i (Assertion.freshness column within) h =
      freshness-Coincide c clock sch bs cs ieee i column within h
  Rearranges-Coincide i (Assertion.cardinality_between column low high) h =
      cardinality_between-Coincide c clock sch bs cs ieee i column low high h
  Rearranges-Coincide i (Assertion.schema_match fields) some_field =
      Coincide-of_iff c clock sch bs cs i (Assertion.schema_match fields)
        (schema_match-decides c law (clock i) i fields sch bs some_field)
        (schema_match-decides c law (clock i) i fields sch cs some_field) (λ e. e) (λ e. e)
  Rearranges-Coincide i (Assertion.percentile_between column p low high) h =
      percentile_between-Coincide c clock sch bs cs ieee i column p low high h
