-- ===== src/Load/Latency.antt =====
-- `eval_p99_under` of engine/load.rs.
use ematix_probe.Prelude.{
  ℕ, ◌<◌, ◌^◌, ◌≡◌, refl, Bool, true, false, some, List, [], ◌∷◌, arith, length, is_empty,
  get_elem?, if◌then◌else◌,
}
use ematix_probe.Prelude.Sort.{sort_by}
use ematix_probe.Message.{Message, lit, fixed}
use ematix_probe.Float.{Float, IsIeee, in_unit, rank}
use ematix_probe.Data.{AssertionResult}
use ematix_probe.Data.Verdicts.{Decides}
use ematix_probe.Scan.Sorting.{length-sort_by, count-sort_by, NoNan, sort_by-IsSorted}
use ematix_probe.Scan.Decide.Percentile.{IsArranged}
use ematix_probe.Load.Plan.{Sample}
use ematix_probe.Load.Evaluate.{latencies_ms, eval_p99_under, passed, failed}
use ematix_probe.Load.Runs.{p99-found}

-- the message of a failure
abbrev too_slow : {F : Type 0} → F → F → Message F
too_slow p99 threshold_ms =
    lit "p99 latency = "
    ∷ fixed 1 p99
    ∷ lit "ms; expected <= "
    ∷ fixed 1 threshold_ms
    ∷ lit "ms"
    ∷ []

test-Decides :
    {F : Type 0} (b : Bool) (idx : ℕ) (m : Message F)
    → Decides idx (if b then passed idx else failed idx m) (b ≡ true)
test-Decides true idx m = ground arith
test-Decides false idx m = ground arith

module _ {F : Type 0} ⦃fl : Float F⦄ (ieee : IsIeee F)
    (p99_in_unit : in_unit (fl.decimal 99 2) ≡ true) where
  -- For floats that obey the IEEE 754 facts of IsIeee and where 0.99 is from 0 to 1: `P99Under` on
  -- the metric "latency_ms", with a sample without an error, fewer than 2^53 samples and no
  -- latency that is a NaN, takes the latency `v` at the nearest rank of 0.99 among the latencies
  -- without an error in ascending order, without an index out of range, passes exactly when `v` is
  -- at most the threshold, and fails otherwise.
  pub eval_p99_under-decides :
      (idx : ℕ) (threshold : F) (samples : List Sample)
      → is_empty {A = F} (latencies_ms samples) ≡ false
      → length samples < 2 ^ 53
      → NoNan {F = F} (latencies_ms samples)
      → (sorted : List F) × (v : F) × (r : AssertionResult F) × IsArranged ieee sorted
          (latencies_ms samples)
        × (get_elem? sorted (rank (fl.decimal 99 2) (length {A = F} (latencies_ms samples)))
            ≡ some v)
        × (eval_p99_under idx "latency_ms" threshold samples ≡ some r)
        × Decides idx r (fl.le v threshold ≡ true)
  unfolding eval_p99_under
  eval_p99_under-decides idx threshold samples some_latency few no_nan =
      let ms : List F = latencies_ms samples in
      let sorted : List F = sort_by fl.lt ms in
      let (v, at) = p99-found ieee p99_in_unit samples some_latency few in
      let same : length sorted ≡ length ms = length-sort_by fl.lt ms in
      (
        sorted,
        v,
        (if fl.le v threshold then passed idx else failed idx (too_slow v threshold)),
        (sort_by-IsSorted ieee ms no_nan, λ q. count-sort_by fl.lt q ms),
        rw same at at,
        rw (some_latency, eval_p99_under, at) refl,
        test-Decides (fl.le v threshold) idx (too_slow v threshold),
      )
