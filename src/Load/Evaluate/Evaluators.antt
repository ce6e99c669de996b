-- ===== src/Load/Evaluate/Evaluators.antt =====
-- The four evaluators of engine/load.rs. `none` is a panic, of an index out of range.
use ematix_probe.Prelude.{
  ℕ, ◌-◌, String, Bool, false, not, ◌&&◌, ◌||◌, Option, none, some, List, [], ◌∷◌, ◌++◌, map,
  length, get_elem?, take, is_empty, is_none, filter, count, if◌then◌else◌, ltb, leb, ◌==◌,
  string_eq, nat_eq, to_set, contains,
}
use ematix_probe.Prelude.Sort.{sort_by}
use ematix_probe.Message.{Message, lit, str, debug_str, debug_nats, nat, float, fixed}
use ematix_probe.Float.{Float, zero_f, of_ℕ, in_unit, rank}
use ematix_probe.Data.{Verdict, AssertionResult}
use ematix_probe.Load.Plan.{Sample}

-- `s.error.is_some() || !matches!(s.status_code, Some(c) if (200..300).contains(&c))`
abbrev pub is_success : Option ℕ → Bool
is_success none = false
is_success (some c) = leb 200 c && ltb c 300

abbrev pub is_bad : Sample → Bool
is_bad s = not (is_none s.error) || not (is_success s.status_code)

module _ {F : Type 0} where
  unfoldable pub acc_error : ℕ → Message F → AssertionResult F
  acc_error idx msg = record { assertion_index = idx; verdict = Verdict.error; message = some msg }

  abbrev pub passed : ℕ → AssertionResult F
  passed idx = record { assertion_index = idx; verdict = Verdict.pass; message = none }

  abbrev pub failed : ℕ → Message F → AssertionResult F
  failed idx msg = record { assertion_index = idx; verdict = Verdict.fail; message = some msg }

  -- the match of the loop over the samples: what is pushed to `violations`
  unfoldable pub violation : List ℕ → Sample → List (Message F)
  violation allowed_set s = elim s.status_code [
    | some c ↦
        if contains allowed_set c
        then []
        else (lit "tick #" ∷ nat s.tick_index ∷ lit ": status " ∷ nat c ∷ []) ∷ []
    | none ↦
        (lit "tick #"
          ∷ nat s.tick_index
          ∷ lit ": connection error ("
          ∷ (elim s.error [ some e ↦ str e | none ↦ lit "unknown" ])
          ∷ lit ")"
          ∷ [])
        ∷ []
  ]

  unfoldable pub violations : List ℕ → List Sample → List (Message F)
  unfolding violation
  violations allowed_set [] = []
  violations allowed_set (s ∷ samples) = violation allowed_set s ++ violations allowed_set samples

  -- `join(", ")`, with the text that follows
  unfoldable pub join : List (Message F) → Message F → Message F
  join [] rest = rest
  join (m ∷ []) rest = m ++ rest
  join (m ∷ n ∷ ms) rest = m ++ lit ", " ∷ join (n ∷ ms) rest

  unfoldable pub eval_status_code_in : ℕ → List ℕ → List Sample → AssertionResult F
  unfolding violations join acc_error
  eval_status_code_in idx allowed samples =
      if is_empty allowed
      then acc_error idx
          (lit "StatusCodeIn: allowed set is empty (would violate every sample)" ∷ [])
      else if is_empty samples
      then acc_error idx (lit "StatusCodeIn: no samples to check" ∷ [])
      else let found : List (Message F) = violations (to_set allowed) samples in
        if is_empty found
        then passed idx
        else failed idx (
            nat (length found)
            ∷ lit " sample(s) with status_code outside allowed set "
            ∷ debug_nats allowed
            ∷ lit ": "
            ∷ join (take 5 found) (
                if ltb 5 (length found)
                then lit " (+" ∷ nat (length found - 5) ∷ lit " more)" ∷ []
                else []))

module _ {F : Type 0} ⦃fl : Float F⦄ where
  -- `s.latency.as_secs_f64() * 1000.0` of the samples without an error
  unfoldable pub latencies_ms : List Sample → List F
  latencies_ms samples =
      map (λ s. fl.mul (fl.as_secs s.latency) (fl.decimal 1000 0))
        (filter (λ s. is_none s.error) samples)

  -- The latencies come from Durations, so none is a NaN and the sort's comparison is a total order.
  unfoldable pub eval_p99_under : ℕ → String → F → List Sample → Option (AssertionResult F)
  unfolding acc_error latencies_ms sort_by
  eval_p99_under idx metric threshold_ms samples =
      if not (metric == "latency_ms")
      then some (
          acc_error idx (
            lit "P99Under: unknown metric "
            ∷ debug_str metric
            ∷ lit " — v0.1 only supports \"latency_ms\""
            ∷ []))
      else if is_empty (latencies_ms samples)
      then some (acc_error idx (lit "P99Under: no successful samples to compute p99 on" ∷ []))
      else let sorted : List F = sort_by fl.lt (latencies_ms samples) in
        elim (get_elem? sorted (rank (fl.decimal 99 2) (length sorted))) [
          | none ↦ none
          | some p99 ↦ some (
              if fl.le p99 threshold_ms
              then passed idx
              else failed idx (
                  lit "p99 latency = "
                  ∷ fixed 1 p99
                  ∷ lit "ms; expected <= "
                  ∷ fixed 1 threshold_ms
                  ∷ lit "ms"
                  ∷ []))
        ]

  unfoldable pub eval_error_rate_below : ℕ → F → List Sample → AssertionResult F
  unfolding acc_error
  eval_error_rate_below idx threshold samples =
      if not (fl.is_finite threshold) || not (in_unit threshold)
      then acc_error idx (
          lit "ErrorRateBelow: threshold must be in [0.0, 1.0] (got "
          ∷ float threshold
          ∷ lit ")"
          ∷ [])
      else if is_empty samples
      then acc_error idx (lit "ErrorRateBelow: no samples to compute error rate on" ∷ [])
      else let total = length samples in
        let bad = count is_bad samples in
        let rate = fl.div (of_ℕ bad) (of_ℕ total) in
        if fl.lt rate threshold
        then passed idx
        else failed idx (
            lit "error_rate = "
            ∷ fixed 4 rate
            ∷ lit " ("
            ∷ nat bad
            ∷ lit " of "
            ∷ nat total
            ∷ lit " samples); expected < "
            ∷ fixed 4 threshold
            ∷ [])

  unfoldable pub eval_throughput_above : ℕ → F → ℕ → List Sample → AssertionResult F
  unfolding acc_error
  eval_throughput_above idx threshold_rps effective samples =
      if not (fl.is_finite threshold_rps) || fl.lt threshold_rps zero_f
      then acc_error idx (
          lit "ThroughputAbove: threshold_rps must be >= 0 (got "
          ∷ float threshold_rps
          ∷ lit ")"
          ∷ [])
      else if is_empty samples
      then acc_error idx (lit "ThroughputAbove: no samples to compute rate on" ∷ [])
      else if fl.le (fl.as_secs effective) zero_f
      then acc_error idx (lit "ThroughputAbove: plan duration is zero (no wall-clock budget)" ∷ [])
      else let secs = fl.as_secs effective in
        let actual_rps = fl.div (of_ℕ (length samples)) secs in
        if fl.le threshold_rps actual_rps
        then passed idx
        else failed idx (
            lit "throughput = "
            ∷ fixed 2 actual_rps
            ∷ lit " rps ("
            ∷ nat (length samples)
            ∷ lit " samples / "
            ∷ fixed 2 secs
            ∷ lit "s); expected >= "
            ∷ fixed 2 threshold_rps
            ∷ lit " rps"
            ∷ [])
