-- ===== src/Load/Windows.antt =====
-- The window of time that `evaluate_load` of engine/load.rs measures.
use ematix_probe.Prelude.{
  length, ◌^◌, ℕ, suc, ◌-◌, ◌≤◌, ◌<◌, ◌≡◌, refl, true, false, some, List, [], ◌∷◌, arith, filter,
  All, leb, string_eq,
}
use ematix_probe.Float.{Float, IsIeee, in_unit}
use ematix_probe.Data.{Verdict, AssertionResult, summarise}
use ematix_probe.Load.Plan.{LoadAssertion, LoadMode, LoadProfile, Sample}
use ematix_probe.Load.Runs.{eval_from-some}
use ematix_probe.Load.Evaluate.{
  eval_from, warmup_errors, warmup_ticks, measured, evaluate_load, acc_error,
}

filter-all : (samples : List Sample) → filter (λ s. leb 0 s.tick_index) samples ≡ samples
filter-all [] = refl
filter-all (s ∷ samples) = ground (arith, filter-all samples)

module _ {F : Type 0} ⦃fl : Float F⦄ where
  warmup_errors-error :
      (idx : ℕ) (assertions : List (LoadAssertion F)) (warmup total : ℕ)
      → All (λ r. r.verdict ≡ Verdict.error) (warmup_errors idx assertions warmup total)
  unfolding warmup_errors acc_error
  warmup_errors-error idx [] warmup total = tt
  warmup_errors-error idx (a ∷ assertions) warmup total =
      (refl, warmup_errors-error (suc idx) assertions warmup total)

  module _ {P : Type 0} ⦃profile : LoadProfile F P⦄ (plan : P) (samples : List Sample) where
    -- If the warmup is as long as the run or longer, there are results for the plan, and each of
    -- them is an `Error`.
    evaluate_load-no_window :
        profile.duration plan ≤ profile.warmup plan
        → (results : List (AssertionResult F)) × (evaluate_load plan samples
            ≡ some (summarise results))
          × All (λ r. r.verdict ≡ Verdict.error) results
    unfolding evaluate_load
    evaluate_load-no_window h =
        let warmup = profile.warmup plan in
        let total = profile.duration plan in
        let test : leb total warmup ≡ true = ground arith in
        (
          warmup_errors 0 (profile.assertions plan) warmup total,
          rw (test, evaluate_load) refl,
          warmup_errors-error 0 (profile.assertions plan) warmup total,
        )

    -- In the closed model, with a warmup shorter than the run and fewer than 2^53 samples,
    -- `evaluate_load` returns the results of the assertions on all samples, none dropped as warmup,
    -- rated over the duration less the warmup. The floats obey the IEEE 754 facts of IsIeee, and
    -- 0.99 is from 0 to 1.
    pub evaluate_load-virtual_users :
        (ieee : IsIeee F) (p99_in_unit : in_unit (fl.decimal 99 2) ≡ true) (users : ℕ)
        → profile.mode plan ≡ LoadMode.virtual_users users
        → profile.warmup plan < profile.duration plan
        → length samples < 2 ^ 53
        → (results : List (AssertionResult F)) × (eval_from 0
              (profile.assertions plan)
              (profile.duration plan - profile.warmup plan)
              samples
            ≡ some results)
          × (evaluate_load plan samples ≡ some (summarise results))
    unfolding evaluate_load measured warmup_ticks
    evaluate_load-virtual_users ieee p99_in_unit users closed h few =
        let test : leb (profile.duration plan) (profile.warmup plan) ≡ false = ground arith in
        let (results, e, _, _) =
          eval_from-some ieee p99_in_unit 0 (profile.assertions plan)
            (profile.duration plan - profile.warmup plan) samples few in
        (results, e, rw (test, evaluate_load, closed) (rw (filter-all samples) (rw e refl)))
