-- ===== src/Examples/Pools.antt =====
-- Two workers that draw one tick each and finish in the other order, and the theorems on virtual users
-- applied to them.
use ematix_probe.Prelude.{
  All, map, ℕ, ◌≤◌, ◌<◌, ◌≡◌, refl, none, some, List, [], ◌∷◌, arith, length, ◌⊎◌,
}
use ematix_probe.Prelude.Sort.{sort_by, sort_insert}
use ematix_probe.Data.{AssertionResult, summarise}
use ematix_probe.Load.Plan.{LoadAssertion, LoadMode, LoadPlan, Sample, load_plan_profile}
use ematix_probe.Load.Evaluate.{eval_from, evaluate_load}
use ematix_probe.Load.VuPool.Judged.{collected-evaluate_load}
use ematix_probe.Examples.Numbers.{Thousandths, thousandths, thousandths-IsIeee}
use ematix_probe.Load.VuPool.{
  VuPool, Worker, Run, started, Step, Reaches, joined, by_tick, collected,
}
use ematix_probe.Load.VuPool.Bounds.{in_flight, samples, in_flight-le-count}
use ematix_probe.Load.VuPool.Settles.{CanStep, collected-settles}
use ematix_probe.Load.VuPool.Indices.{losses}
use ematix_probe.Load.VuPool.Order.{IsAscending, numbers, collected-IsAscending}

abbrev pool : VuPool
pool = record { count = 2; duration = 1 }

abbrev sample : ℕ → Sample
sample i = record { tick_index = i; latency = 1000; status_code = some 200; error = none }

abbrev run : ℕ → ℕ → Worker → Worker → Run
run now next_index v w = record { now = now; next_index = next_index; workers = v ∷ w ∷ [] }

abbrev final : Run
final = run 6 2 (Worker.returned (sample 1 ∷ [])) (Worker.returned (sample 0 ∷ []))

-- from the end: both stop, the clock passes the deadline, both finish, both draw, both are admitted
ran : Reaches 6 9 (started pool 5) final
ran = (
  run 6 2 (Worker.returned (sample 1 ∷ [])) (Worker.looping (sample 0 ∷ [])),
  (
    run 6 2 (Worker.looping (sample 1 ∷ [])) (Worker.looping (sample 0 ∷ [])),
    (
      run 5 2 (Worker.looping (sample 1 ∷ [])) (Worker.looping (sample 0 ∷ [])),
      (
        run 5 2 (Worker.working 1 []) (Worker.looping (sample 0 ∷ [])),
        (
          run 5 2 (Worker.working 1 []) (Worker.working 0 []),
          (
            run 5 1 (Worker.admitted []) (Worker.working 0 []),
            (
              run 5 0 (Worker.admitted []) (Worker.admitted []),
              (
                run 5 0 (Worker.admitted []) (Worker.looping []),
                (
                  started pool 5,
                  refl,
                  Step.admit [] (Worker.looping [] ∷ []) [] refl (omega arith) refl,
                ),
                Step.admit (Worker.admitted [] ∷ []) [] [] refl (omega arith) refl,
              ),
              Step.draw (Worker.admitted [] ∷ []) [] [] refl refl,
            ),
            Step.draw [] (Worker.working 0 [] ∷ []) [] refl refl,
          ),
          Step.finish (Worker.working 1 [] ∷ []) [] 0 [] (sample 0) refl refl refl,
        ),
        Step.finish [] (Worker.looping (sample 0 ∷ []) ∷ []) 1 [] (sample 1) refl refl refl,
      ),
      Step.wait 6 (omega arith) refl,
    ),
    Step.stop [] (Worker.looping (sample 0 ∷ []) ∷ []) (sample 1 ∷ []) refl (omega arith) refl,
  ),
  Step.stop (Worker.returned (sample 1 ∷ []) ∷ []) [] (sample 0 ∷ []) refl (omega arith) refl,
)

gathered : collected pool final ≡ some (sample 0 ∷ sample 1 ∷ [])
unfolding collected joined by_tick sort_by sort_insert
gathered = refl

collected-IsAscending_example :
    IsAscending 0 (sample 0 ∷ sample 1 ∷ [])
    × All (λ s. s.tick_index < final.next_index) (sample 0 ∷ sample 1 ∷ [])
    × (losses final.workers ≡ 0
        → map (λ s. s.tick_index) (sample 0 ∷ sample 1 ∷ []) ≡ numbers 0 final.next_index)
collected-IsAscending_example =
    collected-IsAscending pool 5 9 final (sample 0 ∷ sample 1 ∷ []) (omega arith) (omega arith) ran
      gathered

in_flight-le-count_example :
    (in_flight final.workers ≤ 2)
    × (final.next_index ≤ 9)
    × (length (samples (collected pool final)) ≤ 2)
in_flight-le-count_example = in_flight-le-count pool 5 9 final (omega arith) (omega arith) ran

-- after the deadline one worker has a tick to draw and the other has stopped
abbrev late : Run
late = run 6 1 (Worker.admitted []) (Worker.returned (sample 0 ∷ []))

abbrev drawn : Run
drawn = run 6 2 (Worker.working 1 []) (Worker.returned (sample 0 ∷ []))

collected-settles_example :
    (1 ≤ 6) × (((all : List Sample) × (collected pool drawn ≡ some all)) ⊎ CanStep 6 drawn)
collected-settles_example =
    collected-settles pool 6 1 late drawn (omega arith)
      (late, refl, Step.draw [] (Worker.returned (sample 0 ∷ []) ∷ []) [] refl refl, tt)

-- the two workers as a plan
abbrev plan : LoadPlan Thousandths
plan = record {
  target = record { method = "GET"; url = "http://localhost/" };
  duration = 1;
  mode = LoadMode.virtual_users 2;
  warmup = 0;
  assertions = LoadAssertion.status_code_in (200 ∷ []) ∷ [];
}

collected-evaluate_load_example :
    (results : List (AssertionResult Thousandths)) × IsAscending 0 (sample 0 ∷ sample 1 ∷ [])
    × All (λ s. s.tick_index < final.next_index) (sample 0 ∷ sample 1 ∷ [])
    × (eval_from 0 plan.assertions 1 (sample 0 ∷ sample 1 ∷ []) ≡ some results)
    × (evaluate_load plan (sample 0 ∷ sample 1 ∷ []) ≡ some (summarise results))
collected-evaluate_load_example =
    collected-evaluate_load thousandths-IsIeee refl plan 2 5 9 final (sample 0 ∷ sample 1 ∷ []) refl
      (omega arith) (omega arith) ran gathered
