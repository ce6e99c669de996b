-- ===== src/Examples/Postgres.antt =====
-- A database that answers every count with 0 and every age with one second, and the theorems on the
-- Postgres adapter applied to it.
use Prim.Native.String.{◌++◌ as append}
use ematix_probe.Prelude.{ℕ, suc, pos, ◌≡◌, refl, String, none, some, List, [], ◌∷◌, length}
use ematix_probe.Message.{Message}
use ematix_probe.Adapter.{AdapterError, returned, raised}
use ematix_probe.Data.{Assertion, ProbePlan, AssertionResult, summarise}
use ematix_probe.Data.Verdicts.{Numbered}
use ematix_probe.Crates.{ok}
use ematix_probe.Postgres.Ident.{qualified_table}
use ematix_probe.Sources.DuckDb.Ident as DuckDb
use ematix_probe.Postgres.Reading.{read_table, read_table-qualified_table}
use ematix_probe.Postgres.Pool.{Pool}
use ematix_probe.Postgres.Execute.{execute}
use ematix_probe.Postgres.Runs.{IsReliable, execute-returns}
use ematix_probe.Postgres.Refusals.{execute-misconfigured}
use ematix_probe.Examples.Numbers.{Thousandths, thousandths}

-- the state counts the calls
abbrev pool : Pool ℕ Thousandths
pool = record {
  get = λ s. (ok tt, suc s);
  query_count = λ sql params s. (ok (pos 0), suc s);
  query_age = λ sql s. (ok (some (some 1000)), suc s);
}

pool-IsReliable : IsReliable pool
pool-IsReliable = record {
  got = λ s. refl;
  counted = λ sql params s. (pos 0, refl);
  aged = λ sql s. (some (some 1000), refl);
}

abbrev plan : List (Assertion Thousandths String) → ProbePlan Thousandths String
plan assertions = record { schema = some "public"; table = "items"; assertions = assertions }

abbrev three : List (Assertion Thousandths String)
three =
    Assertion.unique "id"
    ∷ Assertion.freshness "seen_at" (pos 60)
    ∷ Assertion.row_count (some (pos 1)) none
    ∷ []

execute-returns_example :
    (results : List (AssertionResult Thousandths)) × (s' : ℕ) × (execute pool (plan three) 0
      ≡ (returned (summarise results), s'))
    × Numbered 0 results
    × (length results ≡ 3)
execute-returns_example =
    execute-returns pool (plan three) pool-IsReliable (refl, (refl, (refl, tt))) 0

abbrev empty_enum : List (Assertion Thousandths String)
empty_enum = Assertion.unique "id" ∷ Assertion.enum "name" [] ∷ Assertion.not_null "id" ∷ []

execute-misconfigured_example :
    (m : Message Thousandths) × (s' : ℕ) × (execute pool (plan empty_enum) 0
      ≡ (raised (AdapterError.config m), s'))
execute-misconfigured_example =
    execute-misconfigured pool (plan empty_enum) pool-IsReliable (Assertion.unique "id" ∷ [])
      (Assertion.enum "name" []) (Assertion.not_null "id" ∷ []) 0 refl (refl, tt) refl

read_table-qualified_table_example :
    (read_table (append (qualified_table (some "my.schema") "a\"b") " WHERE")
      ≡ some ((some "my.schema", "a\"b"), " WHERE"))
    × (read_table (append (DuckDb.qualified_table (some "my.schema") "a\"b") " WHERE")
        ≡ some ((some "my.schema", "a\"b"), " WHERE"))
read_table-qualified_table_example =
    read_table-qualified_table (some "my.schema") "a\"b" " WHERE" refl refl
