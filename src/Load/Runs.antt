-- ===== src/Load/Runs.antt =====
-- `evaluate_load` of engine/load.rs over all its assertions.
use ematix_probe.Prelude.{
  ℕ, suc, ◌-◌, ◌≤◌, ◌<◌, ◌^◌, ◌≡◌, refl, ap, Bool, true, false, String, Option, none, some, List,
  [], ◌∷◌, arith, length, length-map, is_none, filter, leb, get_elem?, is_empty, if◌then◌else◌,
  Bool-cases, inl, inr, ◌==◌, string_eq,
}
use ematix_probe.Prelude.Sort.{sort_by}
use ematix_probe.Message.{Message}
use ematix_probe.Float.{Float, IsIeee, in_unit, rank}
use ematix_probe.Data.{AssertionResult, summarise}
use ematix_probe.Data.Verdicts.{Numbered}
use ematix_probe.Scan.Sorting.{length-sort_by, get_elem?-of_lt}
use ematix_probe.Scan.Decide.Percentile.{rank-lt}
use ematix_probe.Load.Plan.{LoadAssertion, LoadMode, LoadProfile, Sample}
use ematix_probe.Load.Evaluate.{
  latencies_ms, eval_p99_under, eval_error_rate_below, eval_throughput_above, eval_status_code_in,
  eval_one, eval_from, warmup_errors, warmup_ticks, measured, evaluate_load, acc_error, passed,
  failed,
}

length-filter-le {ℓ} : {A : Type ℓ} (p : A → Bool) (xs : List A) → length (filter p xs) ≤ length xs
length-filter-le p [] = omega arith
length-filter-le p (x ∷ xs) = ground (arith, length-filter-le p xs)

length-of_some {ℓ} : {A : Type ℓ} (xs : List A) → is_empty xs ≡ false → 0 < length xs
length-of_some [] h = cc
length-of_some (x ∷ xs) h = omega arith

module _ {F : Type 0} where
  -- There is a result, and it has the index.
  abbrev HasIndex : ℕ → Option (AssertionResult F) → Type 0
  HasIndex idx none = ⊥
  HasIndex idx (some r) = r.assertion_index ≡ idx

  HasIndex-some :
      (idx : ℕ) (o : Option (AssertionResult F))
      → HasIndex idx o
      → (r : AssertionResult F) × (o ≡ some r) × (r.assertion_index ≡ idx)
  HasIndex-some idx none h = absurd h
  HasIndex-some idx (some r) h = (r, refl, h)

  index_of_test :
      (test : Bool) (idx : ℕ) (m : Message F)
      → HasIndex idx (some (if test then passed idx else failed idx m))
  index_of_test true idx m = refl
  index_of_test false idx m = refl

module _ (F : Type 0) ⦃fl : Float F⦄ where
  length-latencies_ms-le :
      (samples : List Sample) → length {A = F} (latencies_ms samples) ≤ length samples
  unfolding latencies_ms
  length-latencies_ms-le samples = omega (
    arith,
    length-filter-le (λ s. is_none s.error) samples,
    length-map (filter (λ s. is_none s.error) samples)
        (λ s. fl.mul (fl.as_secs s.latency) (fl.decimal 1000 0)),
  )

module _ {F : Type 0} ⦃fl : Float F⦄ (ieee : IsIeee F)
    (p99_in_unit : in_unit (fl.decimal 99 2) ≡ true) where
  -- The latency that the p99 evaluator looks up is there.
  pub p99-found :
      (samples : List Sample)
      → is_empty {A = F} (latencies_ms samples) ≡ false
      → length samples < 2 ^ 53
      → (v : F) × (get_elem?
            (sort_by fl.lt (latencies_ms samples))
            (rank (fl.decimal 99 2) (length (sort_by fl.lt (latencies_ms samples))))
          ≡ some v)
  p99-found samples some_latency few =
      let ms : List F = latencies_ms samples in
      let same : length (sort_by fl.lt ms) ≡ length ms = length-sort_by fl.lt ms in
      get_elem?-of_lt (sort_by fl.lt ms) (rank (fl.decimal 99 2) (length (sort_by fl.lt ms))) (
        rw same (
          rank-lt ieee (fl.decimal 99 2) (length ms) p99_in_unit (length-of_some ms some_latency)
            (omega (arith, length-latencies_ms-le F samples))))

  p99-HasIndex :
      (idx : ℕ) (metric : String) (threshold : F) (samples : List Sample)
      → length samples < 2 ^ 53
      → HasIndex idx (eval_p99_under idx metric threshold samples)
  unfolding eval_p99_under acc_error
  p99-HasIndex idx metric threshold samples few = elim (Bool-cases (metric == "latency_ms")) [
    | inr other ↦ rw (other, eval_p99_under) refl
    | inl latency ↦ elim (Bool-cases (is_empty {A = F} (latencies_ms samples))) [
      | inl nothing ↦ rw (latency, eval_p99_under, nothing) refl
      | inr something ↦
          let (v, at) = p99-found samples something few in
          rw (latency, eval_p99_under, something, at) (index_of_test (fl.le v threshold) idx _)
    ]
  ]

  eval_one-some :
      (idx : ℕ) (a : LoadAssertion F) (effective : ℕ) (samples : List Sample)
      → length samples < 2 ^ 53
      → (r : AssertionResult F) × (eval_one idx a effective samples ≡ some r)
        × (r.assertion_index ≡ idx)
  unfolding eval_one eval_error_rate_below eval_throughput_above eval_status_code_in acc_error
  eval_one-some idx (LoadAssertion.p99_under metric threshold) effective samples few =
      HasIndex-some idx (eval_p99_under idx metric threshold samples)
        (p99-HasIndex idx metric threshold samples few)
  eval_one-some idx (LoadAssertion.error_rate_below threshold) effective samples few =
      (eval_error_rate_below idx threshold samples, refl, ground arith)
  eval_one-some idx (LoadAssertion.throughput_above threshold) effective samples few =
      (eval_throughput_above idx threshold effective samples, refl, ground arith)
  eval_one-some idx (LoadAssertion.status_code_in allowed) effective samples few =
      (eval_status_code_in idx allowed samples, refl, ground arith)

  pub eval_from-some :
      (idx : ℕ) (assertions : List (LoadAssertion F)) (effective : ℕ) (samples : List Sample)
      → length samples < 2 ^ 53
      → (results : List (AssertionResult F)) × (eval_from idx assertions effective samples
          ≡ some results)
        × Numbered idx results
        × (length results ≡ length assertions)
  unfolding eval_from
  eval_from-some idx [] effective samples few = ([], refl, tt, refl)
  eval_from-some idx (a ∷ assertions) effective samples few =
      let (r, one, at) = eval_one-some idx a effective samples few in
      let (rs, rest, numbered, same) = eval_from-some (suc idx) assertions effective samples few in
      (r ∷ rs, rw (one, eval_from, rest) refl, (at, numbered), ap suc same)

  length-measured-le :
      (mode : LoadMode F) (warmup : ℕ) (samples : List Sample)
      → length (measured mode warmup samples) ≤ length samples
  unfolding measured
  length-measured-le mode warmup samples =
      length-filter-le (λ s. leb (warmup_ticks mode warmup) s.tick_index) samples

  warmup_errors-Numbered :
      (idx : ℕ) (assertions : List (LoadAssertion F)) (warmup total : ℕ)
      → Numbered idx (warmup_errors idx assertions warmup total)
        × (length (warmup_errors idx assertions warmup total) ≡ length assertions)
  unfolding warmup_errors acc_error
  warmup_errors-Numbered idx [] warmup total = (tt, refl)
  warmup_errors-Numbered idx (a ∷ assertions) warmup total =
      let (n, e) = warmup_errors-Numbered (suc idx) assertions warmup total in ((refl, n), ap suc e)

  module _ {P : Type 0} ⦃profile : LoadProfile F P⦄ where
    -- For floats that obey the IEEE 754 facts of IsIeee and where 0.99 is from 0 to 1:
    -- `evaluate_load` returns a summary for every plan and fewer than 2^53 samples, without an
    -- index out of range: one result for each assertion, in their order and with their indices,
    -- and the reduced verdict of them all.
    pub evaluate_load-returns :
        (plan : P) (samples : List Sample)
        → length samples < 2 ^ 53
        → (results : List (AssertionResult F)) × (evaluate_load plan samples
            ≡ some (summarise results))
          × Numbered 0 results
          × (length results ≡ length (profile.assertions plan))
    unfolding evaluate_load
    evaluate_load-returns plan samples few =
        let warmup = profile.warmup plan in
        let total = profile.duration plan in
        let assertions = profile.assertions plan in
        elim (Bool-cases (leb total warmup)) [
          | inl no_window ↦ (
            warmup_errors 0 assertions warmup total,
            rw (no_window, evaluate_load) refl,
            (warmup_errors-Numbered 0 assertions warmup total).0,
            (warmup_errors-Numbered 0 assertions warmup total).1,
          )
          | inr window ↦
              let kept = measured (profile.mode plan) warmup samples in
              let (results, e, numbered, same) =
                eval_from-some 0 assertions (total - warmup) kept
                  (omega (arith, length-measured-le (profile.mode plan) warmup samples)) in
              (results, rw (window, evaluate_load, e) refl, numbered, same)
        ]
