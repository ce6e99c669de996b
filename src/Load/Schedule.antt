-- ===== src/Load/Schedule.antt =====
-- The ticks of the constant-rate scheduler of engine/load/scheduler.rs.
use ematix_probe.Prelude.{
  ℕ, zero, suc, ◌+◌, ◌≤◌, ◌<◌, ◌≡◌, refl, ap, true, false, none, some, List, [], ◌∷◌, arith, length,
  leb, add_u64, u64_mod,
}
use ematix_probe.Adapter.{returned}
use ematix_probe.Float.{Float}
use ematix_probe.Load.Scheduler.{
  Tick, ConstantRateScheduler, Reading, new, tick_offset, next_tick, ticks,
}

module _ {F : Type 0} ⦃fl : Float F⦄ (rps : F) (duration : ℕ) where
  -- The ticks have the indices from `i` on, and each is scheduled at its offset after the start,
  -- before the run ends.
  abbrev pub OnSchedule : ℕ → ℕ → List Tick → Type 0
  OnSchedule start i [] = Unit
  OnSchedule start i (t ∷ ts) =
      ((t.index ≡ i)
        × (t.scheduled_at < start + duration)
        × ((offset : ℕ) × (tick_offset rps i ≡ some offset) × (t.scheduled_at ≡ start + offset)))
      × OnSchedule start (suc i) ts

  -- The offset of a tick, before the run ends.
  abbrev pub IsDue : ℕ → Type 0
  IsDue i = (offset : ℕ) × (tick_offset rps i ≡ some offset) × (offset < duration)

  -- The offset of a tick, when the run is over.
  abbrev pub IsOver : ℕ → Type 0
  IsOver i = (offset : ℕ) × (tick_offset rps i ≡ some offset) × (duration ≤ offset)

  abbrev pub running : ℕ → ℕ → ConstantRateScheduler F
  running start i = record { rps = rps; duration = duration; start = some start; next_index = i }

  pub next_tick-due :
      (r : Reading) (start i offset : ℕ)
      → tick_offset rps i ≡ some offset
      → offset < duration
      → suc i < u64_mod
      → next_tick r (running start i)
        ≡ some (
          some (record { index = i; scheduled_at = start + offset; fired_at = r.after }),
          running start (suc i),
        )
  unfolding next_tick
  next_tick-due r start i offset e h few =
      let test : leb (start + duration) (start + offset) ≡ false = ground arith in
      let next : add_u64 i 1 ≡ suc i = omega arith in rw (e, next_tick, test) (rw next refl)

  next_tick-over :
      (r : Reading) (start i offset : ℕ)
      → tick_offset rps i ≡ some offset
      → duration ≤ offset
      → next_tick r (running start i) ≡ some (none, running start i)
  unfolding next_tick
  next_tick-over r start i offset e h =
      let test : leb (start + duration) (start + offset) ≡ true = ground arith in
      rw (e, next_tick, test) refl

  ticks-running :
      (n k start i : ℕ) (readings : List Reading)
      → n ≡ i + k
      → ((j : ℕ) → j < n → IsDue j)
      → IsOver n
      → k < length readings
      → n < u64_mod
      → (ts : List Tick) × (ticks readings (running start i) ≡ returned ts)
        × OnSchedule start i ts
        × (length ts ≡ k)
  unfolding ticks
  ticks-running n k start i [] at due over more few = absurd (omega arith)
  ticks-running n zero start i (r ∷ readings) at due (offset, e, h) more few =
      let here : n ≡ i = omega arith in
      ([], rw (next_tick-over r start i offset (rw here at e) h, ticks) refl, tt, refl)
  ticks-running n (suc k) start i (r ∷ readings) at due over more few =
      let (offset, e, h) = due i (omega arith) in
      let (ts, rest, sched, same) =
        ticks-running n k start (suc i) readings (omega arith) due over (omega arith) few in
      let tick : Tick = record { index = i; scheduled_at = start + offset; fired_at = r.after } in
      (
        tick ∷ ts,
        rw (next_tick-due r start i offset e h (omega arith), ticks, rest) refl,
        ((refl, omega arith, (offset, e, refl)), sched),
        ap suc same,
      )

  -- Where the first `n` ticks are due before the run ends and tick `n` is not, with a clock that is
  -- read more than `n` times, the ticks of a new scheduler end after exactly `n`: they have the
  -- indices from 0 on, each scheduled at its offset after the first reading, whatever the clock
  -- shows later. There are fewer than 2^64 of them.
  pub ticks-returns :
      (n : ℕ) (r : Reading) (readings : List Reading)
      → ((j : ℕ) → j < n → IsDue j)
      → IsOver n
      → n ≤ length readings
      → n < u64_mod
      → (ts : List Tick) × (ticks (r ∷ readings) (new rps duration) ≡ returned ts)
        × OnSchedule r.at_start 0 ts
        × (length ts ≡ n)
  unfolding ticks next_tick new
  ticks-returns n r readings due over more few =
      ticks-running n n r.at_start 0 (r ∷ readings) (omega arith) due over (omega arith) few
