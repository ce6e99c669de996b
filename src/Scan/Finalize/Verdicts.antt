-- ===== src/Scan/Finalize/Verdicts.antt =====
-- The arms of `Acc::finalize` of engine/scan.rs that compare counts, row counts and times.
use ematix_probe.Prelude.{
  ℕ, ℤ, pos, String, Option, none, some, [], ◌∷◌, if◌then◌else◌, eqb, ltb_ℤ, leb_ℤ, quot, as_i64,
  sub_i64,
}
use ematix_probe.Message.{Message, lit, debug_str, int}
use ematix_probe.Data.{Verdict, AssertionResult}
use ematix_probe.Crates.{TimeUnit}

unfoldable pub ts_to_seconds : ℤ → TimeUnit → ℤ
ts_to_seconds value TimeUnit.second = value
ts_to_seconds value TimeUnit.millisecond = quot value 1_000
ts_to_seconds value TimeUnit.microsecond = quot value 1_000_000
ts_to_seconds value TimeUnit.nanosecond = quot value 1_000_000_000

-- `SystemTime::now().duration_since(UNIX_EPOCH).map(|d| d.as_secs() as i64).unwrap_or(0)`;
-- the clock shows `none` before the epoch
unfoldable pub now_secs : Option ℕ → ℤ
now_secs none = pos 0
now_secs (some secs) = as_i64 secs

module _ {F : Type 0} where
  unfoldable pub pass : ℕ → AssertionResult F
  pass assertion_index = record {
    assertion_index = assertion_index;
    verdict = Verdict.pass;
    message = none;
  }

  unfoldable pub fail : ℕ → Message F → AssertionResult F
  fail assertion_index msg = record {
    assertion_index = assertion_index;
    verdict = Verdict.fail;
    message = some msg;
  }

  -- an `AssertionResult` with the verdict `Error`
  abbrev pub error_result : ℕ → Message F → AssertionResult F
  error_result assertion_index msg = record {
    assertion_index = assertion_index;
    verdict = Verdict.error;
    message = some msg;
  }

  -- the arms that pass exactly at a count of 0
  unfoldable pub finalize_count : ℕ → ℕ → Message F → AssertionResult F
  unfolding pass fail
  finalize_count assertion_index count msg =
      if eqb count 0 then pass assertion_index else fail assertion_index msg

  -- the `RowCount` arm
  unfoldable pub finalize_row_count : ℕ → Option ℤ → Option ℤ → ℤ → AssertionResult F
  unfolding pass fail
  finalize_row_count assertion_index low high count =
      let check_high : AssertionResult F = elim high [
        | none ↦ pass assertion_index
        | some hi ↦
            if ltb_ℤ hi count
            then fail assertion_index
                (lit "table has " ∷ int count ∷ lit " row(s); expected at most " ∷ int hi ∷ [])
            else pass assertion_index
      ] in
      elim low [
        | none ↦ check_high
        | some lo ↦
            if ltb_ℤ count lo
            then fail assertion_index
                (lit "table has " ∷ int count ∷ lit " row(s); expected at least " ∷ int lo ∷ [])
            else check_high
      ]

  unfoldable pub finalize_cardinality : ℕ → String → Option ℤ → Option ℤ → ℤ → AssertionResult F
  unfolding pass fail
  finalize_cardinality assertion_index column low high count =
      let check_high : AssertionResult F = elim high [
        | none ↦ pass assertion_index
        | some hi ↦
            if ltb_ℤ hi count
            then fail assertion_index (
                lit "column "
                ∷ debug_str column
                ∷ lit " has "
                ∷ int count
                ∷ lit " distinct value(s); expected at most "
                ∷ int hi
                ∷ [])
            else pass assertion_index
      ] in
      elim low [
        | none ↦ check_high
        | some lo ↦
            if ltb_ℤ count lo
            then fail assertion_index (
                lit "column "
                ∷ debug_str column
                ∷ lit " has "
                ∷ int count
                ∷ lit " distinct value(s); expected at least "
                ∷ int lo
                ∷ [])
            else check_high
      ]

  -- the `Freshness` arm, with the clock as it reads then
  unfoldable pub finalize_freshness :
      Option ℕ → ℕ → String → TimeUnit → ℤ → Option ℤ → AssertionResult F
  unfolding pass fail ts_to_seconds now_secs
  finalize_freshness clock assertion_index column unit within_seconds none =
      fail assertion_index
        (lit "column " ∷ debug_str column ∷ lit ": no rows; cannot evaluate freshness" ∷ [])
  finalize_freshness clock assertion_index column unit within_seconds (some max) =
      let age = sub_i64 (now_secs clock) (ts_to_seconds max unit) in
      if leb_ℤ age within_seconds
      then pass assertion_index
      else fail assertion_index (
          lit "column "
          ∷ debug_str column
          ∷ lit ": most recent value is "
          ∷ int age
          ∷ lit "s old; expected within "
          ∷ int within_seconds
          ∷ lit "s"
          ∷ [])
