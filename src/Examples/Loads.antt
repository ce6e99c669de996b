-- ===== src/Examples/Loads.antt =====
-- A load run of four samples and a schedule of three ticks, and the theorems on loads applied to
-- them.
use ematix_probe.Prelude.{
  ℕ, zero, suc, ◌<◌, ◌≡◌, refl, String, true, Option, none, some, List, [], ◌∷◌, arith, All, length,
  get_elem?,
}
use ematix_probe.Adapter.{returned, panicked}
use ematix_probe.Float.{rank}
use ematix_probe.Data.{AssertionResult, summarise}
use ematix_probe.Data.Verdicts.{Decides, Numbered}
use ematix_probe.Scan.Decide.Percentile.{IsArranged}
use ematix_probe.Load.Plan.{LoadAssertion, LoadMode, LoadPlan, load_plan_profile, Sample}
use ematix_probe.Load.Evaluate.{
  latencies_ms, eval_p99_under, eval_status_code_in, eval_throughput_above, eval_one, eval_from,
  evaluate_load, passed,
}
use ematix_probe.Load.Scheduler.{Tick, Reading, new, ticks, tick_offset}
use ematix_probe.Load.Status.{IsAllowed, eval_status_code_in-decides}
use ematix_probe.Load.Latency.{eval_p99_under-decides}
use ematix_probe.Load.Runs.{evaluate_load-returns}
use ematix_probe.Load.Schedule.{OnSchedule, IsDue, IsOver, ticks-returns}
use ematix_probe.Blocking.{replied}
use ematix_probe.Load.Tasks.{collect_ticks}
use ematix_probe.Load.Tasks.Degenerate.{no_time, collect_ticks-Degenerates}
use ematix_probe.Examples.Numbers.{Thousandths, thousandths, thousandths-IsIeee}

abbrev sample : ℕ → ℕ → Option ℕ → Option String → Sample
sample i latency code error = record {
  tick_index = i;
  latency = latency;
  status_code = code;
  error = error;
}

abbrev samples : List Sample
samples =
    sample 0 2000000 (some 200) none
    ∷ sample 1 1000000 (some 200) none
    ∷ sample 2 3000000 (some 503) none
    ∷ sample 3 9000000 none (some "timed out")
    ∷ []

abbrev plan : LoadMode Thousandths → ℕ → List (LoadAssertion Thousandths) → LoadPlan Thousandths
plan mode warmup assertions = record {
  target = record { method = "GET"; url = "http://localhost/" };
  duration = 4000000000;
  mode = mode;
  warmup = warmup;
  assertions = assertions;
}

abbrev all_four : List (LoadAssertion Thousandths)
all_four =
    LoadAssertion.p99_under "latency_ms" (some 2500)
    ∷ LoadAssertion.error_rate_below (some 100)
    ∷ LoadAssertion.throughput_above (some 500)
    ∷ LoadAssertion.status_code_in (200 ∷ [])
    ∷ []

eval_status_code_in-decides_example :
    Decides {F = Thousandths} 3
      (eval_status_code_in 3 (200 ∷ 503 ∷ []) samples)
      (All (IsAllowed (200 ∷ 503 ∷ [])) samples)
eval_status_code_in-decides_example =
    eval_status_code_in-decides Thousandths (200 ∷ 503 ∷ []) 3 samples (λ e. ground arith)
      (λ e. ground arith)

-- three latencies
eval_p99_under-decides_example :
    (sorted : List Thousandths) × (v : Thousandths) × (r : AssertionResult Thousandths) × IsArranged
      thousandths-IsIeee sorted
      (latencies_ms samples)
    × (get_elem? sorted
          (rank {F = Thousandths} (some 990) (length {A = Thousandths} (latencies_ms samples)))
        ≡ some v)
    × (eval_p99_under 0 "latency_ms" (some 2500) samples ≡ some r)
    × Decides 0 r (thousandths.le v (some 2500) ≡ true)
unfolding latencies_ms
eval_p99_under-decides_example =
    eval_p99_under-decides thousandths-IsIeee refl 0 (some 2500) samples refl (omega arith)
      (refl, (refl, (refl, tt)))

evaluate_load-returns_example :
    (results : List (AssertionResult Thousandths)) × (evaluate_load
        (plan (LoadMode.constant_rate (some 1000)) 1000000000 all_four)
        samples
      ≡ some (summarise results))
    × Numbered 0 results
    × (length results ≡ 4)
evaluate_load-returns_example =
    evaluate_load-returns thousandths-IsIeee refl
      (plan (LoadMode.constant_rate (some 1000)) 1000000000 all_four) samples (omega arith)

-- four samples in four seconds, of which three are warmup, pass as four a second
abbrev rated : LoadPlan Thousandths
rated = plan (LoadMode.virtual_users 2) 3000000000 (LoadAssertion.throughput_above (some 4000) ∷ [])

rated-passes : eval_from 0 rated.assertions 1000000000 samples ≡ some (passed 0 ∷ [])
unfolding eval_from eval_one eval_throughput_above
rated-passes = refl

abbrev pub reading : ℕ → Reading
reading t = record { at_start = t; before = t; after = t }

-- one tick a second, for two seconds and a half
pub due : (j : ℕ) → j < 3 → IsDue {F = Thousandths} (some 1000) 2500000000 j
unfolding tick_offset
due zero h = (0, refl, omega arith)
due (suc zero) h = (1000000000, refl, omega arith)
due (suc (suc zero)) h = (2000000000, refl, omega arith)
due (suc (suc (suc j))) h = absurd (omega arith)

pub over : IsOver {F = Thousandths} (some 1000) 2500000000 3
unfolding tick_offset
over = (3000000000, refl, omega arith)

ticks-returns_example :
    (ts : List Tick) × (ticks {F = Thousandths}
        (reading 7 ∷ reading 8 ∷ reading 9 ∷ reading 9 ∷ [])
        (new (some 1000) 2500000000)
      ≡ returned ts)
    × OnSchedule {F = Thousandths} (some 1000) 2500000000 7 0 ts
    × (length ts ≡ 3)
ticks-returns_example =
    ticks-returns (some 1000) 2500000000 3 (reading 7) (reading 8 ∷ reading 9 ∷ reading 9 ∷ []) due
      over (omega arith) (omega arith)

-- no request a second
collect_ticks-Degenerates_example :
    collect_ticks {F = Thousandths}
      (λ i. replied (sample i 0 none none))
      (reading 7 ∷ [])
      (some 0)
      2500000000
    ≡ panicked
unfolding tick_offset
collect_ticks-Degenerates_example =
    collect_ticks-Degenerates (some 0) 2500000000 (λ i. replied (sample i 0 none none))
      (reading 7 ∷ []) panicked
      (no_time 0 (reading 7) [] refl (λ j h. absurd (omega arith)) refl (omega arith) (omega arith)
        refl)
