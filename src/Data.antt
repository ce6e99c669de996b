-- ===== src/Data.antt =====
-- crates/ematix-probe-core/src/engine/data.rs: the assertions, the plan and the results. `F` is
-- the type of `f64`, `D` is arrow's `DataType`.
pub mod Verdicts
pub mod Alike
use ematix_probe.Prelude.{
  ℕ, ℤ, String, ◌≡◌, Bool, true, false, Option, List, arith, any, if◌then◌else◌,
}
use ematix_probe.Message.{Message}

pub data Verdict : Type 0 where
  pass fail error : Verdict

pub data Assertion (F D : Type 0) : Type 0 where
  not_null : (column : String) → Assertion F D
  unique : (column : String) → Assertion F D
  unique_group : (columns : List String) → Assertion F D
  between : (column : String) (low high : F) → Assertion F D
  regex : (column pattern' : String) → Assertion F D
  enum : (column : String) (allowed : List String) → Assertion F D
  row_count : (low high : Option ℤ) → Assertion F D
  freshness : (column : String) (within_seconds : ℤ) → Assertion F D
  percentile_between : (column : String) (p low high : F) → Assertion F D
  cardinality_between : (column : String) (low high : Option ℤ) → Assertion F D
  schema_match : (fields : List (String × D)) → Assertion F D

pub record ProbePlan (F D : Type 0) : Type 0 where
  pub schema : Option String
  pub table : String
  pub assertions : List (Assertion F D)

pub record AssertionResult (F : Type 0) : Type 0 where
  pub assertion_index : ℕ
  pub verdict : Verdict
  pub message : Option (Message F)

pub record RunSummary (F : Type 0) : Type 0 where
  pub verdict : Verdict
  pub assertions : List (AssertionResult F)

-- `r.verdict == v`
abbrev pub verdict_eq : Verdict → Verdict → Bool
verdict_eq Verdict.pass Verdict.pass = true
verdict_eq Verdict.fail Verdict.fail = true
verdict_eq Verdict.error Verdict.error = true
verdict_eq _ _ = false

module _ {F : Type 0} where
  unfoldable pub reduce_verdict : List (AssertionResult F) → Verdict
  reduce_verdict results =
      if any (λ r. verdict_eq r.verdict Verdict.error) results
      then Verdict.error
      else if any (λ r. verdict_eq r.verdict Verdict.fail) results
      then Verdict.fail
      else Verdict.pass

  abbrev pub summarise : List (AssertionResult F) → RunSummary F
  summarise results = record { verdict = reduce_verdict results; assertions = results }
