-- ===== src/Load/Sql/Probe.antt =====
-- A SQL load probe at a constant rate from end to end: `collect_samples` of
-- adapters/load/postgres.rs and `evaluate_load` of engine/load.rs on what it returns.
use ematix_probe.Prelude.{
  ℕ, ◌-◌, ◌≤◌, ◌<◌, ◌^◌, ◌≡◌, ◌∙◌, true, some, List, ◌∷◌, arith, length, String,
}
use ematix_probe.Float.{Float, IsIeee, in_unit}
use ematix_probe.Adapter.{Outcome, returned}
use ematix_probe.Crates.{Result, ok}
use ematix_probe.Data.{AssertionResult, summarise}
use ematix_probe.Data.Verdicts.{Numbered}
use ematix_probe.Postgres.Deadpool.{Deadpool}
use ematix_probe.Load.Plan.{LoadMode, PgLoadPlan, Sample, pg_load_plan_profile}
use ematix_probe.Load.Evaluate.{eval_from, warmup_ticks, evaluate_load}
use ematix_probe.Load.Scheduler.{Reading}
use ematix_probe.Load.Schedule.{IsDue, IsOver}
use ematix_probe.Load.Tasks.Collected.{collect_ticks-from_to}
use ematix_probe.Load.Tasks.Judged.{from_to-evaluate_load}
use ematix_probe.Load.Sql.{
  SqlClient, build_pool, to_sample, run_query_to_sample, collect_constant_rate, Collects,
  CollectsMode,
}
use ematix_probe.Load.Sql.Samples.{
  Answers, queried, to_sample-tick_index, run_query_to_sample-Answers,
}

module _ {F DbPool Client Statement Config : Type 0} ⦃fl : Float F⦄
    (sql : SqlClient F DbPool Client Statement) (deadpool : Deadpool Config DbPool) (pool : DbPool)
    (plan : PgLoadPlan F) (rps : F) (built : build_pool {F = F} deadpool plan.target.dsn ≡ ok pool)
    (open_model : plan.mode ≡ LoadMode.constant_rate rps) where
  Collects-queries :
      (readings : List Reading) (o : Outcome F (List Sample))
      → Collects sql deadpool plan readings o
      → o ≡ collect_constant_rate sql pool plan.target.query readings rps plan.duration
  Collects-queries readings o h =
      let in_mode : CollectsMode sql pool plan readings plan.mode o = rw built at h in
      rw open_model at in_mode

  -- Of a SQL plan at a constant rate, whose pool is built and whose warmup is shorter than the run,
  -- where the first `n` ticks are due before the run ends and tick `n` is not, fewer than 2^53: if
  -- the query of each of them comes to an answer (no client, a statement not prepared, one that
  -- fails, or a round trip, and no panic), `collect_samples` returns exactly `n` samples, one for
  -- each tick in the order of the ticks, with the time that its query took, and the status 200 of a
  -- round trip or the error marked by the call that failed. `evaluate_load` returns a summary of
  -- them. What it judges is exactly the samples of the ticks from `warmup_ticks` up to `n`, over the
  -- duration less the warmup, with one result for each assertion, in their order and with their
  -- indices. The floats obey the IEEE 754 facts of IsIeee, 0.99 is from 0 to 1, and the clock is
  -- read more than `n` times.
  pub Collects-evaluate_load_queries :
      (ieee : IsIeee F) (n : ℕ) (r : Reading) (readings : List Reading)
      (answer : ℕ → Result String Unit) (o : Outcome F (List Sample))
      → in_unit (fl.decimal 99 2) ≡ true
      → plan.warmup < plan.duration
      → ((j : ℕ) → j < n → IsDue rps plan.duration j)
      → IsOver rps plan.duration n
      → n ≤ length readings
      → n < 2 ^ 53
      → Collects sql deadpool plan (r ∷ readings) o
      → ((j : ℕ) → j < n → Answers sql pool plan.target.query j (answer j))
      → let warm = warmup_ticks plan.mode plan.warmup in
        (results : List (AssertionResult F)) × (o
          ≡ returned (queried sql pool plan.target.query answer 0 n))
        × (evaluate_load plan (queried sql pool plan.target.query answer 0 n)
            ≡ some (summarise results))
        × (eval_from 0 plan.assertions
              (plan.duration - plan.warmup)
              (queried sql pool plan.target.query answer warm (n - warm))
            ≡ some results)
        × Numbered 0 results
        × (length results ≡ length plan.assertions)
  unfolding collect_constant_rate
  Collects-evaluate_load_queries ieee n r readings answer o in_range window due over more few
        collects answers =
      let sample : ℕ → Sample = λ j. to_sample j (sql.elapsed j) (answer j) in
      let named : (j : ℕ) → (sample j).tick_index ≡ j =
        λ j. to_sample-tick_index j (sql.elapsed j) (answer j) in
      let (results, summary, each, numbered, same) =
        from_to-evaluate_load ieee in_range plan sample named n window few in
      (
        results,
        Collects-queries (r ∷ readings) o collects
            ∙ collect_ticks-from_to rps plan.duration
                (run_query_to_sample sql pool plan.target.query) n r readings due over more
                (omega arith) sample named
                (λ j h.
                  run_query_to_sample-Answers sql pool plan.target.query j (answer j)
                    (answers j h)),
        summary,
        each,
        numbered,
        same,
      )
