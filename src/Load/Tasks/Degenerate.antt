-- ===== src/Load/Tasks/Degenerate.antt =====
-- Rates whose ticks do not come to an end: `Duration::from_secs_f64` or `mul_f64` of
-- engine/load/scheduler.rs panics, or the period is 0.
use ematix_probe.Prelude.{
  ℕ, zero, suc, ◌+◌, ◌≤◌, ◌<◌, ◌≡◌, refl, false, none, List, [], ◌∷◌, arith, length, leb, add_u64,
  u64_mod,
}
use ematix_probe.Float.{Float}
use ematix_probe.Adapter.{Outcome, panicked, stopped, and_then}
use ematix_probe.Blocking.{Reply}
use ematix_probe.Load.Plan.{Sample}
use ematix_probe.Load.Scheduler.{Reading, new, tick_offset, next_tick, ticks}
use ematix_probe.Load.Schedule.{IsDue, running, next_tick-due}
use ematix_probe.Load.Tasks.{collect_ticks}

module _ {F : Type 0} ⦃fl : Float F⦄ (rps : F) (duration : ℕ) where
  ticks-panicked :
      (k n start i : ℕ) (readings : List Reading)
      → n ≡ i + k
      → ((j : ℕ) → j < n → IsDue rps duration j)
      → tick_offset rps n ≡ none
      → k < length readings
      → n < u64_mod
      → ticks readings (running rps duration start i) ≡ panicked
  unfolding ticks next_tick
  ticks-panicked k n start i [] at due broken more few = absurd (omega arith)
  ticks-panicked zero n start i (r ∷ readings) at due broken more few =
      let here : n ≡ i = omega arith in
      let no_time : tick_offset rps i ≡ none = rw here at broken in
      rw (no_time, ticks, next_tick) refl
  ticks-panicked (suc k) n start i (r ∷ readings) at due broken more few =
      let (offset, e, h) = due i (omega arith) in
      let rest =
        ticks-panicked k n start (suc i) readings (omega arith) due broken (omega arith) few in
      rw (next_tick-due rps duration r start i offset e h (omega arith), ticks, rest) refl

  ticks-stopped :
      (start i : ℕ) (readings : List Reading)
      → ((j : ℕ) → IsDue rps duration j)
      → ticks readings (running rps duration start i) ≡ stopped
  unfolding ticks next_tick
  ticks-stopped start i [] due = refl
  ticks-stopped start i (r ∷ readings) due =
      let (offset, e, h) = due i in
      let test : leb (start + duration) (start + offset) ≡ false = ground arith in
      rw (e, ticks, next_tick, test, ticks-stopped start (add_u64 i 1) readings due) refl

  -- How the ticks of a rate do not come to an end: tick `n` has no time, since the period `1 / rps` or
  -- its product with the index is not a `Duration`, or every tick is due before the run ends.
  pub data Degenerates (readings : List Reading) (o : Outcome F (List Sample)) : Type 0 where
    no_time :
        (n : ℕ) (r : Reading) (rest : List Reading)
        → readings ≡ r ∷ rest
        → ((j : ℕ) → j < n → IsDue rps duration j)
        → tick_offset rps n ≡ none
        → n ≤ length rest
        → n < u64_mod
        → o ≡ panicked
        → Degenerates readings o
    no_end : ((j : ℕ) → IsDue rps duration j) → o ≡ stopped → Degenerates readings o

  -- Where the first `n` ticks are due before the run ends and tick `n` has no time, the collection of
  -- samples at a constant rate panics, with no error and no sample of the `n` ticks, whatever their
  -- tasks come to; there are fewer than 2^64 ticks, and the clock is read more than `n` times. Where
  -- every tick is due, as with a period of 0, it does not end, however often the clock is read.
  pub collect_ticks-Degenerates :
      (task : ℕ → Reply Sample) (readings : List Reading) (o : Outcome F (List Sample))
      → Degenerates readings o
      → collect_ticks task readings rps duration ≡ o
  unfolding collect_ticks ticks next_tick new and_then
  collect_ticks-Degenerates task readings o (no_time n r rest at due broken more few e) =
      let stop : ticks (r ∷ rest) (running rps duration r.at_start 0) ≡ panicked =
        ticks-panicked n n r.at_start 0 (r ∷ rest) (omega arith) due broken (omega arith) few in
      rw (at, e) (rw (stop, collect_ticks, and_then) refl)
  collect_ticks-Degenerates task [] o (no_end due e) = rw e refl
  collect_ticks-Degenerates task (r ∷ readings) o (no_end due e) =
      let stop : ticks (r ∷ readings) (running rps duration r.at_start 0) ≡ stopped =
        ticks-stopped r.at_start 0 (r ∷ readings) due in
      rw e (rw (stop, collect_ticks, and_then) refl)
