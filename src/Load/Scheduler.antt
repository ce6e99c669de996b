-- ===== src/Load/Scheduler.antt =====
-- `ConstantRateScheduler` of engine/load/scheduler.rs. An `Instant` is a number of nanoseconds.
use ematix_probe.Prelude.{ℕ, ◌+◌, Option, none, some, List, [], ◌∷◌, if◌then◌else◌, leb, add_u64}
use ematix_probe.Adapter.{Outcome, returned, raised, panicked, stopped}
use ematix_probe.Float.{Float, one_f, of_ℕ}

pub record Tick : Type 0 where
  pub index : ℕ
  pub scheduled_at : ℕ
  pub fired_at : ℕ

pub record ConstantRateScheduler (F : Type 0) : Type 0 where
  pub rps : F
  pub duration : ℕ
  pub start : Option ℕ
  pub next_index : ℕ

-- What `Instant::now` shows in a call of `next_tick`: where the start is set, before the sleep and
-- after it.
pub record Reading : Type 0 where
  pub at_start : ℕ
  pub before : ℕ
  pub after : ℕ

-- `self.start.get_or_insert_with(Instant::now)`
abbrev pub start_at : Option ℕ → ℕ → ℕ
start_at none now = now
start_at (some start) now = start

module _ {F : Type 0} where
  -- `ConstantRateScheduler::new`
  unfoldable pub new : F → ℕ → ConstantRateScheduler F
  new rps duration = record { rps = rps; duration = duration; start = none; next_index = 0 }

module _ {F : Type 0} ⦃fl : Float F⦄ where
  -- the time of a tick after the start; `none` is a panic of `from_secs_f64` or `mul_f64`
  unfoldable pub tick_offset : F → ℕ → Option ℕ
  tick_offset rps index = elim (fl.from_secs (fl.div one_f rps)) [
    | none ↦ none
    | some tick_period ↦ fl.mul_duration tick_period (of_ℕ index)
  ]

  -- The outer `none` is a panic. The sleep lasts until the clock shows `scheduled_at`, which is a
  -- matter of the reading after it. An `Instant` is of any size, so `start + offset` does not panic.
  unfoldable pub next_tick :
      Reading → ConstantRateScheduler F → Option (Option Tick × ConstantRateScheduler F)
  unfolding tick_offset
  next_tick r s =
      let start = start_at s.start r.at_start in
      let s' : ConstantRateScheduler F = record s { start = some start } in
      elim (tick_offset s.rps s.next_index) [
        | none ↦ none
        | some offset ↦
            if leb (start + s.duration) (start + offset)
            then some (none, s')
            else some (
              some (record {
                index = s.next_index;
                scheduled_at = start + offset;
                fired_at = r.after;
              }),
              record s' { next_index = add_u64 s.next_index 1 },
            )
      ]

  -- `while let Some(tick) = sched.next_tick().await`; it stops where the readings of the clock
  -- run out
  unfoldable pub ticks : List Reading → ConstantRateScheduler F → Outcome F (List Tick)
  unfolding next_tick
  ticks [] s = stopped
  ticks (r ∷ rs) s = elim (next_tick r s) [
    | none ↦ panicked
    | some (none, s') ↦ returned []
    | some (some tick, s') ↦ elim (ticks rs s') [
      | returned rest ↦ returned (tick ∷ rest)
      | raised e ↦ raised e
      | panicked ↦ panicked
      | stopped ↦ stopped
    ]
  ]
