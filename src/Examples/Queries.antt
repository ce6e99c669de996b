-- ===== src/Examples/Queries.antt =====
-- Three queries at one a second, and the theorem on a SQL load probe applied to them.
use ematix_probe.Prelude.{
  ℕ, zero, suc, ◌-◌, ◌<◌, ◌≡◌, refl, String, some, List, [], ◌∷◌, arith, length, if◌then◌else◌, eqb,
}
use ematix_probe.Adapter.{Outcome, returned}
use ematix_probe.Data.{AssertionResult, summarise}
use ematix_probe.Data.Verdicts.{Numbered}
use ematix_probe.Crates.{Result, ok, err}
use ematix_probe.Blocking.{replied}
use ematix_probe.Postgres.Deadpool.{Deadpool}
use ematix_probe.Load.Plan.{
  LoadAssertion, LoadMode, PgLoadPlan, QueryParam, Sample, new_query, param, new_target,
  pg_load_plan_profile,
}
use ematix_probe.Load.Evaluate.{eval_from, warmup_ticks, evaluate_load}
use ematix_probe.Load.Sql.{SqlClient, build_pool, collect_constant_rate}
use ematix_probe.Load.Sql.Samples.{Answers, not_prepared, round_trip, queried}
use ematix_probe.Load.Sql.Probe.{Collects-evaluate_load_queries}
use ematix_probe.Examples.Numbers.{Thousandths, thousandths, thousandths-IsIeee}
use ematix_probe.Examples.Loads.{reading, due, over}

-- the first tick is warmup
abbrev plan : PgLoadPlan Thousandths
unfolding new_query param new_target
plan = record {
  target = new_target "postgres://localhost" (param (new_query "SELECT $1") (QueryParam.text "a"));
  duration = 2500000000;
  mode = LoadMode.constant_rate (some 1000);
  warmup = 1000000000;
  assertions =
      LoadAssertion.error_rate_below (some 100) ∷ LoadAssertion.throughput_above (some 1000) ∷ [];
}

abbrev connecting : Deadpool Unit Unit
connecting = record { from_str = λ dsn. ok tt; build = λ config. ok tt }

-- the statement of the second query cannot be prepared
abbrev answering : SqlClient Thousandths Unit Unit Unit
answering = record {
  get = λ pool i. replied (ok tt);
  prepare = λ client i sql. replied (if eqb i 1 then err "syntax" else ok tt);
  query = λ client i stmt values. replied (ok tt);
  elapsed = λ i. 1000000;
}

abbrev answer : ℕ → Result String Unit
answer i = if eqb i 1 then err "prepare: syntax" else ok tt

answered : (j : ℕ) → j < 3 → Answers answering tt plan.target.query j (answer j)
answered zero h = round_trip tt tt refl refl refl refl
answered (suc zero) h = not_prepared tt "syntax" refl refl refl
answered (suc (suc zero)) h = round_trip tt tt refl refl refl refl
answered (suc (suc (suc j))) h = absurd (omega arith)

abbrev came_to : Outcome Thousandths (List Sample)
came_to =
    collect_constant_rate answering tt plan.target.query
      (reading 7 ∷ reading 8 ∷ reading 9 ∷ reading 9 ∷ []) (some 1000) 2500000000

abbrev came : ℕ → ℕ → List Sample
came = queried answering tt plan.target.query answer

Collects-evaluate_load_queries_example :
    let warm = warmup_ticks {F = Thousandths} plan.mode plan.warmup in
    (results : List (AssertionResult Thousandths)) × (came_to ≡ returned (came 0 3))
    × (evaluate_load plan (came 0 3) ≡ some (summarise results))
    × (eval_from 0 plan.assertions 1500000000 (came warm (3 - warm)) ≡ some results)
    × Numbered 0 results
    × (length results ≡ 2)
unfolding build_pool plan
Collects-evaluate_load_queries_example =
    Collects-evaluate_load_queries answering connecting tt plan (some 1000) refl refl
      thousandths-IsIeee 3 (reading 7) (reading 8 ∷ reading 9 ∷ reading 9 ∷ []) answer came_to refl
      (omega arith) due over (omega arith) (omega arith) refl answered
