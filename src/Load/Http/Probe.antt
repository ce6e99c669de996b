-- ===== src/Load/Http/Probe.antt =====
-- A load probe at a constant rate from end to end: `collect_samples` of adapters/load/http.rs and
-- `evaluate_load` of engine/load.rs on what it returns.
use ematix_probe.Prelude.{
  ℕ, ◌+◌, ◌-◌, ◌≤◌, ◌<◌, ◌^◌, ◌≡◌, true, some, List, ◌∷◌, arith, length, String, All,
}
use ematix_probe.Float.{Float, IsIeee, in_unit}
use ematix_probe.Adapter.{Outcome, returned}
use ematix_probe.Crates.{Result, ok}
use ematix_probe.Blocking.{replied}
use ematix_probe.Data.{AssertionResult, summarise}
use ematix_probe.Data.Verdicts.{Numbered}
use ematix_probe.Load.Plan.{LoadMode, LoadPlan, Sample, load_plan_profile}
use ematix_probe.Load.Evaluate.{eval_from, warmup_ticks, evaluate_load}
use ematix_probe.Load.Scheduler.{Reading}
use ematix_probe.Load.Schedule.{IsDue, IsOver}
use ematix_probe.Load.Tasks.Judged.{from_to-evaluate_load}
use ematix_probe.Load.Http.{Reqwest, grace, to_sample, Collects}
use ematix_probe.Load.Http.Rates.{IsExclusive, samples_of, to_sample-tick_index, Collects-one_each}

module _ {F Client : Type 0} ⦃fl : Float F⦄ (ieee : IsIeee F)
    (p99_in_unit : in_unit (fl.decimal 99 2) ≡ true) (reqwest : Reqwest Client) (client : Client)
    (plan : LoadPlan F) (rps : F) (built : reqwest.build (plan.duration + grace) ≡ ok client)
    (open_model : plan.mode ≡ LoadMode.constant_rate rps) where
  -- Of a plan at a constant rate, whose client is built and whose warmup is shorter than the run,
  -- where the first `n` ticks are due before the run ends and tick `n` is not, fewer than 2^53, and
  -- no request panics: `collect_samples` returns exactly `n` samples, one for each tick in the
  -- order of the ticks, with the tick's index and what its request came to, each with a status or an
  -- error and not both. `evaluate_load` returns a summary of them. What it judges is exactly what the requests of the ticks from `warmup_ticks` up to `n` came to,
  -- over the duration less the warmup, with one result for each assertion, in their order and with
  -- their indices. The floats obey the IEEE 754 facts of IsIeee, 0.99 is from 0 to 1, and the clock
  -- is read more than `n` times.
  pub Collects-evaluate_load :
      (n : ℕ) (r : Reading) (readings : List Reading) (reply : ℕ → ℕ × Result String ℕ)
      (o : Outcome F (List Sample))
      → plan.warmup < plan.duration
      → ((j : ℕ) → j < n → IsDue rps plan.duration j)
      → IsOver rps plan.duration n
      → n ≤ length readings
      → n < 2 ^ 53
      → Collects reqwest plan (r ∷ readings) o
      → ((j : ℕ) → j < n → reqwest.send client plan.target.url j ≡ replied (reply j))
      → let warm = warmup_ticks plan.mode plan.warmup in
        (results : List (AssertionResult F)) × (o ≡ returned (samples_of reply 0 n))
        × All IsExclusive (samples_of reply 0 n)
        × (evaluate_load plan (samples_of reply 0 n) ≡ some (summarise results))
        × (eval_from 0 plan.assertions
              (plan.duration - plan.warmup)
              (samples_of reply warm (n - warm))
            ≡ some results)
        × Numbered 0 results
        × (length results ≡ length plan.assertions)
  Collects-evaluate_load n r readings reply o window due over more few collects done =
      let (one_each, exclusive) =
        Collects-one_each reqwest client plan rps built open_model n r readings due over more
          (omega arith) reply o collects done in
      let (results, summary, each, numbered, same) =
        from_to-evaluate_load ieee p99_in_unit plan (λ j. to_sample j (reply j))
          (λ j. to_sample-tick_index j (reply j)) n window few in
      (results, one_each, exclusive, summary, each, numbered, same)
