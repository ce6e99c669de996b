-- ===== src/Load/Evaluate.antt =====
-- `evaluate_load` of engine/load.rs, with its evaluators passed on. `none` is a panic of one of them.
mod Evaluators
unfoldable pub use Evaluators.*
use ematix_probe.Prelude.{
  if◌then◌else◌, ℕ, suc, ◌-◌, Option, none, some, List, [], ◌∷◌, map, filter, leb,
}
use ematix_probe.Message.{lit, duration}
use ematix_probe.Float.{Float}
use ematix_probe.Data.{AssertionResult, RunSummary, summarise}
use ematix_probe.Load.Plan.{LoadAssertion, LoadMode, LoadProfile, Sample, nominal_rps}

module _ {F : Type 0} ⦃fl : Float F⦄ where
  unfoldable pub eval_one : ℕ → LoadAssertion F → ℕ → List Sample → Option (AssertionResult F)
  unfolding eval_p99_under eval_error_rate_below eval_throughput_above eval_status_code_in
  eval_one idx (LoadAssertion.p99_under metric threshold_ms) effective samples =
      eval_p99_under idx metric threshold_ms samples
  eval_one idx (LoadAssertion.error_rate_below threshold) effective samples =
      some (eval_error_rate_below idx threshold samples)
  eval_one idx (LoadAssertion.throughput_above threshold_rps) effective samples =
      some (eval_throughput_above idx threshold_rps effective samples)
  eval_one idx (LoadAssertion.status_code_in allowed) effective samples =
      some (eval_status_code_in idx allowed samples)

  -- `assertions().iter().enumerate().map(..)` from index `idx` on
  unfoldable pub eval_from :
      ℕ → List (LoadAssertion F) → ℕ → List Sample → Option (List (AssertionResult F))
  unfolding eval_one
  eval_from idx [] effective samples = some []
  eval_from idx (a ∷ assertions) effective samples = elim (eval_one idx a effective samples) [
    | none ↦ none
    | some r ↦ elim (eval_from (suc idx) assertions effective samples) [
      | none ↦ none
      | some rs ↦ some (r ∷ rs)
    ]
  ]

  unfoldable pub warmup_errors : ℕ → List (LoadAssertion F) → ℕ → ℕ → List (AssertionResult F)
  unfolding acc_error
  warmup_errors idx [] warmup total = []
  warmup_errors idx (a ∷ assertions) warmup total =
      acc_error idx (
        lit "warmup ("
        ∷ duration warmup
        ∷ lit ") must be < duration ("
        ∷ duration total
        ∷ lit ") — no measurable window"
        ∷ [])
      ∷ warmup_errors (suc idx) assertions warmup total

  -- `floor(warmup_secs * rps)` at a constant rate, and 0 in the closed model
  unfoldable pub warmup_ticks : LoadMode F → ℕ → ℕ
  warmup_ticks mode warmup = elim (nominal_rps mode) [
    | some rps ↦ fl.to_u64 (fl.floor (fl.mul (fl.as_secs warmup) rps))
    | none ↦ 0
  ]

  unfoldable pub measured : LoadMode F → ℕ → List Sample → List Sample
  unfolding warmup_ticks
  measured mode warmup samples = filter (λ s. leb (warmup_ticks mode warmup) s.tick_index) samples

  module _ {P : Type 0} ⦃profile : LoadProfile F P⦄ where
    unfoldable pub evaluate_load : P → List Sample → Option (RunSummary F)
    unfolding warmup_errors measured eval_from
    evaluate_load plan samples =
        let warmup = profile.warmup plan in
        let total = profile.duration plan in
        if leb total warmup
        then some (summarise (warmup_errors 0 (profile.assertions plan) warmup total))
        else elim (eval_from 0 (profile.assertions plan) (total - warmup)
            (measured (profile.mode plan) warmup samples)) [
              | none ↦ none
              | some results ↦ some (summarise results)
            ]
