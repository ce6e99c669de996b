-- ===== src/Load/Tasks/Judged.antt =====
-- `evaluate_load` of engine/load.rs on the samples of the ticks of a constant rate.
use ematix_probe.Prelude.{
  ℕ, zero, suc, ◌+◌, ◌-◌, ◌≤◌, ◌<◌, ◌^◌, ◌≡◌, refl, ◌∙◌, true, false, some, List, arith, length,
  filter, leb, inl, inr, Bool-cases,
}
use ematix_probe.Float.{Float, IsIeee, in_unit}
use ematix_probe.Data.{AssertionResult, summarise}
use ematix_probe.Data.Verdicts.{Numbered}
use ematix_probe.Load.Plan.{LoadProfile, Sample}
use ematix_probe.Load.Evaluate.{eval_from, warmup_ticks, measured, evaluate_load}
use ematix_probe.Load.Runs.{eval_from-some}
use ematix_probe.Load.Tasks.Ascending.{from_to}

module _ (sample : ℕ → Sample) (named : (i : ℕ) → (sample i).tick_index ≡ i) (warm : ℕ) where
  length-from_to : (i n : ℕ) → length (from_to i n sample) ≡ n
  length-from_to i zero = refl
  length-from_to i (suc n) = omega (arith, length-from_to (suc i) n)

  -- The samples of ticks after the warmup are all kept.
  filter-after :
      (i n : ℕ)
      → warm ≤ i
      → filter (λ s. leb warm s.tick_index) (from_to i n sample) ≡ from_to i n sample
  filter-after i zero h = refl
  filter-after i (suc n) h =
      let test : leb warm (sample i).tick_index ≡ true = rw (named i) (ground arith) in
      rw (test, filter-after (suc i) n (omega arith)) refl

  -- Those of ticks before it are not.
  filter-from_to :
      (i n : ℕ)
      → i ≤ warm
      → filter (λ s. leb warm s.tick_index) (from_to i n sample)
        ≡ from_to warm (i + n - warm) sample
  filter-from_to i zero h = let nothing : i + 0 - warm ≡ 0 = omega arith in rw nothing refl
  filter-from_to i (suc n) h = elim (Bool-cases (leb warm i)) [
    | inl late ↦
        let here : i ≡ warm = ground arith in
        let rest : i + suc n - warm ≡ suc n = omega arith in
        filter-after i (suc n) (omega arith) ∙ rw (rest, here) refl
    | inr early ↦
        let test : leb warm (sample i).tick_index ≡ false = rw (named i, early) refl in
        let rest : i + suc n - warm ≡ suc i + n - warm = omega arith in
        rw (test, rest) (filter-from_to (suc i) n (ground arith))
  ]

module _ {F : Type 0} ⦃fl : Float F⦄ (ieee : IsIeee F)
    (p99_in_unit : in_unit (fl.decimal 99 2) ≡ true) {P : Type 0} ⦃profile : LoadProfile F P⦄
    (plan : P) (sample : ℕ → Sample) (named : (i : ℕ) → (sample i).tick_index ≡ i) where
  measured-from_to :
      (n : ℕ)
      → let warm = warmup_ticks (profile.mode plan) (profile.warmup plan) in
        measured (profile.mode plan) (profile.warmup plan) (from_to 0 n sample)
        ≡ from_to warm (n - warm) sample
  unfolding measured
  measured-from_to n =
      let warm = warmup_ticks (profile.mode plan) (profile.warmup plan) in
      let count : 0 + n - warm ≡ n - warm = omega arith in
      rw count at (filter-from_to sample named warm 0 n (omega arith))

  -- Of one sample for each of fewer than 2^53 ticks, those from `warmup_ticks` on are judged, over
  -- the duration less the warmup.
  pub from_to-evaluate_load :
      (n : ℕ)
      → profile.warmup plan < profile.duration plan
      → n < 2 ^ 53
      → let warm = warmup_ticks (profile.mode plan) (profile.warmup plan) in
        (results : List (AssertionResult F)) × (evaluate_load plan (from_to 0 n sample)
          ≡ some (summarise results))
        × (eval_from 0
              (profile.assertions plan)
              (profile.duration plan - profile.warmup plan)
              (from_to warm (n - warm) sample)
            ≡ some results)
        × Numbered 0 results
        × (length results ≡ length (profile.assertions plan))
  unfolding evaluate_load
  from_to-evaluate_load n window few =
      let warm = warmup_ticks (profile.mode plan) (profile.warmup plan) in
      let test : leb (profile.duration plan) (profile.warmup plan) ≡ false = ground arith in
      let (results, e, numbered, same) =
        eval_from-some ieee p99_in_unit 0 (profile.assertions plan)
          (profile.duration plan - profile.warmup plan) (from_to warm (n - warm) sample)
          (omega (arith, length-from_to sample named warm warm (n - warm))) in
      (results, rw (test, evaluate_load, measured-from_to n, e) refl, e, numbered, same)
