-- ===== src/Load/Tasks/Collected.antt =====
-- `collect_constant_rate` over the ticks of the scheduler: a sample for each, or an error.
use ematix_probe.Prelude.{
  ℕ, zero, suc, ◌+◌, ◌≤◌, ◌<◌, ◌≡◌, refl, String, List, [], ◌∷◌, arith, length, u64_mod,
}
use ematix_probe.Message.{lit, str}
use ematix_probe.Float.{Float}
use ematix_probe.Adapter.{AdapterError, returned, raised, and_then}
use ematix_probe.Blocking.{Reply, replied, unwound}
use ematix_probe.Load.Plan.{Sample}
use ematix_probe.Load.Scheduler.{Tick, Reading}
use ematix_probe.Load.Schedule.{OnSchedule, IsDue, IsOver, ticks-returns}
use ematix_probe.Load.Tasks.{join_tasks, collect_ticks}
use ematix_probe.Load.Tasks.Ascending.{from_to, by_tick-from_to}

module _ {F : Type 0} ⦃fl : Float F⦄ (rps : F) (duration : ℕ) (task : ℕ → Reply Sample) where
  join_tasks-from_to :
      (sample : ℕ → Sample) (start i n : ℕ) (ts : List Tick)
      → ((j : ℕ) → j < i + n → task j ≡ replied (sample j))
      → OnSchedule rps duration start i ts
      → length ts ≡ n
      → join_tasks {F = F} task ts ≡ returned (from_to i n sample)
  unfolding join_tasks and_then
  join_tasks-from_to sample start i zero [] done sched same = refl
  join_tasks-from_to sample start i (suc n) (t ∷ ts) done ((at, before, due), sched) same =
      let here : task t.index ≡ replied (sample i) = rw at (done i (omega arith)) in
      rw
        (
          here,
          join_tasks,
          join_tasks-from_to sample start (suc i) n ts (λ j h. done j (omega arith)) sched
              (omega arith),
          and_then,
        )
        refl
  join_tasks-from_to sample start i zero (t ∷ ts) done sched same = absurd (omega arith)
  join_tasks-from_to sample start i (suc n) [] done sched same = absurd (omega arith)

  join_tasks-unwound :
      (sample : ℕ → Sample) (t : String) (start i k : ℕ) (ts : List Tick)
      → ((j : ℕ) → j < i + k → task j ≡ replied (sample j))
      → task (i + k) ≡ unwound t
      → OnSchedule rps duration start i ts
      → k < length ts
      → join_tasks {F = F} task ts ≡ raised (AdapterError.connection (lit "join: " ∷ str t ∷ []))
  unfolding join_tasks and_then
  join_tasks-unwound sample t start i k [] done lost sched more = absurd (omega arith)
  join_tasks-unwound sample t start i zero (tick ∷ ts) done lost ((at, before, due), sched) more =
      let sum : i + 0 ≡ i = omega arith in
      let here : task tick.index ≡ unwound t = rw at (rw sum at lost) in rw (here, join_tasks) refl
  join_tasks-unwound sample t start i (suc k) (tick ∷ ts) done lost ((at, before, due), sched)
        more =
      let sum : i + suc k ≡ suc i + k = omega arith in
      let here : task tick.index ≡ replied (sample i) = rw at (done i (omega arith)) in
      rw
        (
          here,
          join_tasks,
          join_tasks-unwound sample t start (suc i) k ts (λ j h. done j (omega arith))
              (rw sum at lost) sched (omega arith),
          and_then,
        )
        refl

  module _ (n : ℕ) (r : Reading) (readings : List Reading)
      (due : (j : ℕ) → j < n → IsDue rps duration j) (over : IsOver rps duration n)
      (more : n ≤ length readings) (few : n < u64_mod) (sample : ℕ → Sample)
      (named : (i : ℕ) → (sample i).tick_index ≡ i) where
    -- With `n` ticks due, all of whose tasks end: their samples in the order of the ticks.
    pub collect_ticks-from_to :
        ((j : ℕ) → j < n → task j ≡ replied (sample j))
        → collect_ticks task (r ∷ readings) rps duration ≡ returned (from_to 0 n sample)
    unfolding collect_ticks and_then
    collect_ticks-from_to done =
        let (ts, ran, sched, same) = ticks-returns rps duration n r readings due over more few in
        rw
          (
            ran,
            collect_ticks,
            and_then,
            join_tasks-from_to sample r.at_start 0 n ts (λ j h. done j (omega arith)) sched same,
            and_then,
            by_tick-from_to sample named 0 n,
          )
          refl

    -- With the task of tick `k` the first that panics: its join error.
    pub collect_ticks-unwound :
        (k : ℕ) (t : String)
        → k < n
        → ((j : ℕ) → j < k → task j ≡ replied (sample j))
        → task k ≡ unwound t
        → collect_ticks task (r ∷ readings) rps duration
          ≡ raised (AdapterError.connection (lit "join: " ∷ str t ∷ []))
    unfolding collect_ticks and_then
    collect_ticks-unwound k t below done lost =
        let (ts, ran, sched, same) = ticks-returns rps duration n r readings due over more few in
        let sum : 0 + k ≡ k = omega arith in
        rw
          (
            ran,
            collect_ticks,
            and_then,
            join_tasks-unwound sample t r.at_start 0 k ts (λ j h. done j (omega arith))
                (rw sum lost) sched (omega arith),
            and_then,
          )
          refl
