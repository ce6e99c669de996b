-- ===== src/Python/Module.antt =====
-- The module `_core` of crates/ematix-probe-py/src/lib.rs: what it adds, by name, and the two texts of
-- `__repr__` that are not the derived `Debug` of a type of the engine.
use ematix_probe.Prelude.{String, Option, none, some, List, [], ◌∷◌, ◌++◌, map, length}
use ematix_probe.Message.{Message, lit, debug_str, nat}
use ematix_probe.Crates.{Result, ok, err}
use ematix_probe.Python.{PyProbePlan, PyRunReport, verdict_str}

-- `m.add`, `m.add_class` and `m.add_function`
pub data Member : Type 0 where
  constant : (name value : String) → Member
  class : (name : String) → Member
  function : (name : String) → Member

-- the classes by the name that `pyclass` gives them, and the functions
abbrev pub classes : List String
classes = "Assertion" ∷ "ProbePlan" ∷ "AssertionResult" ∷ "RunReport" ∷ []

abbrev pub functions : List String
functions =
    "assertion_not_null" ∷ "assertion_unique" ∷ "assertion_unique_group" ∷ "assertion_between"
    ∷ "assertion_freshness" ∷ "assertion_regex" ∷ "assertion_enum" ∷ "assertion_row_count"
    ∷ "run_postgres_probe" ∷ "run_duckdb_probe" ∷ "run_parquet_probe" ∷ "run_s3_parquet_probe"
    ∷ "duckdb_setup" ∷ []

-- A module under construction. An addition may raise a Python exception, here its text.
pub record PyModule (M : Type 0) : Type 0 where
  pub add : Member → M → Result String M

module _ {M : Type 0} (py : PyModule M) where
  -- each addition with its `?`
  unfoldable pub add_all : List Member → M → Result String M
  add_all [] m = ok m
  add_all (x ∷ xs) m = elim (py.add x m) [ err e ↦ err e | ok m' ↦ add_all xs m' ]

  -- `_core`, with the version of the engine
  unfoldable pub core_module : String → M → Result String M
  unfolding add_all
  core_module version m =
      add_all (constant "__version__" version ∷ map class classes ++ map function functions) m

module _ {F : Type 0} where
  -- `{:?}` of an `Option<String>`
  abbrev debug_option : Option String → Message F
  debug_option none = lit "None" ∷ []
  debug_option (some s) = lit "Some(" ∷ debug_str s ∷ lit ")" ∷ []

  -- `PyProbePlan::__repr__`
  unfoldable pub repr_plan : {D : Type 0} → PyProbePlan F D → Message F
  repr_plan plan =
      lit "ProbePlan(schema=" ∷ debug_option plan.schema
      ++ lit ", table="
        ∷ debug_str plan.table
        ∷ lit ", assertions="
        ∷ nat (length plan.assertions)
        ∷ lit ")"
        ∷ []

  -- `PyRunReport::__repr__`
  unfoldable pub repr_report : PyRunReport F → Message F
  unfolding verdict_str
  repr_report report =
      lit "RunReport(verdict="
      ∷ debug_str (verdict_str report.verdict)
      ∷ lit ", assertions="
      ∷ nat (length report.assertions)
      ∷ lit ")"
      ∷ []
