-- ===== src/Python.antt =====
-- The Python bindings of crates/ematix-probe-py/src/lib.rs: the classes and the functions that make an
-- assertion. A class with one field `inner` is that field.
pub mod Module
pub mod Probes
pub mod Kinds
pub mod Reports
use ematix_probe.Prelude.{ℕ, ℤ, String, Option, List, ◌∷◌, map, length}
use ematix_probe.Message.{Message, lit}
use ematix_probe.Adapter.{AdapterError}
use ematix_probe.Data.{Verdict, Assertion, ProbePlan, AssertionResult, RunSummary}

abbrev pub PyAssertion : Type 0 → Type 0 → Type 0
PyAssertion F D = Assertion F D

abbrev pub PyProbePlan : Type 0 → Type 0 → Type 0
PyProbePlan F D = ProbePlan F D

abbrev pub PyAssertionResult : Type 0 → Type 0
PyAssertionResult F = AssertionResult F

abbrev pub PyRunReport : Type 0 → Type 0
PyRunReport F = RunSummary F

module _ {F D : Type 0} where
  unfoldable pub kind : PyAssertion F D → String
  kind (Assertion.not_null column) = "not_null"
  kind (Assertion.unique column) = "unique"
  kind (Assertion.unique_group columns) = "unique_group"
  kind (Assertion.between column low high) = "between"
  kind (Assertion.regex column pattern') = "regex"
  kind (Assertion.enum column allowed) = "enum"
  kind (Assertion.row_count low high) = "row_count"
  kind (Assertion.freshness column within_seconds) = "freshness"
  kind (Assertion.percentile_between column p low high) = "unknown"
  kind (Assertion.cardinality_between column low high) = "unknown"
  kind (Assertion.schema_match fields) = "unknown"

  -- `ProbePlan(schema, table, assertions)`
  unfoldable pub new_plan : Option String → String → List (PyAssertion F D) → PyProbePlan F D
  new_plan schema table assertions = record {
    schema = schema;
    table = table;
    assertions = assertions;
  }

  -- `assertion_count` and `__len__`
  unfoldable pub assertion_count : PyProbePlan F D → ℕ
  assertion_count plan = length plan.assertions

module _ (F D : Type 0) where
  unfoldable pub assertion_not_null : String → PyAssertion F D
  assertion_not_null column = Assertion.not_null column

  unfoldable pub assertion_unique : String → PyAssertion F D
  assertion_unique column = Assertion.unique column

  unfoldable pub assertion_unique_group : List String → PyAssertion F D
  assertion_unique_group columns = Assertion.unique_group columns

  unfoldable pub assertion_between : String → F → F → PyAssertion F D
  assertion_between column low high = Assertion.between column low high

  unfoldable pub assertion_freshness : String → ℤ → PyAssertion F D
  assertion_freshness column within_seconds = Assertion.freshness column within_seconds

  unfoldable pub assertion_regex : String → String → PyAssertion F D
  assertion_regex column pattern' = Assertion.regex column pattern'

  unfoldable pub assertion_enum : String → List String → PyAssertion F D
  assertion_enum column allowed = Assertion.enum column allowed

  unfoldable pub assertion_row_count : Option ℤ → Option ℤ → PyAssertion F D
  assertion_row_count low high = Assertion.row_count low high

unfoldable pub verdict_str : Verdict → String
verdict_str Verdict.pass = "pass"
verdict_str Verdict.fail = "fail"
verdict_str Verdict.error = "error"

module _ {F : Type 0} where
  -- the getter `verdict` of a result and of a report
  unfoldable pub result_verdict : PyAssertionResult F → String
  unfolding verdict_str
  result_verdict r = verdict_str r.verdict

  unfoldable pub report_verdict : PyRunReport F → String
  unfolding verdict_str
  report_verdict report = verdict_str report.verdict

  -- the getter `assertions` of a report
  unfoldable pub report_assertions : PyRunReport F → List (PyAssertionResult F)
  report_assertions report = map (λ inner. inner) report.assertions

  -- `__len__` of a report
  unfoldable pub report_len : PyRunReport F → ℕ
  report_len report = length report.assertions

  -- `to_string` of an `AdapterError`
  unfoldable pub to_string : AdapterError F → Message F
  to_string (AdapterError.connection m) = lit "connection failed: " ∷ m
  to_string (AdapterError.query m) = lit "query failed: " ∷ m
  to_string (AdapterError.config m) = lit "invalid configuration: " ∷ m
