-- ===== src/Load/VuPool/Judged.antt =====
-- A load probe by virtual users from end to end: what `VuPool::run` of engine/load/scheduler.rs
-- returns, judged by `evaluate_load` of engine/load.rs.
use ematix_probe.Prelude.{ℕ, ◌+◌, ◌-◌, ◌≤◌, ◌<◌, ◌^◌, ◌≡◌, true, some, List, arith, length, All}
use ematix_probe.Float.{Float, IsIeee, in_unit}
use ematix_probe.Data.{AssertionResult, summarise}
use ematix_probe.Load.Plan.{LoadMode, LoadProfile, Sample}
use ematix_probe.Load.Evaluate.{eval_from, evaluate_load}
use ematix_probe.Load.Windows.{evaluate_load-virtual_users}
use ematix_probe.Load.VuPool.{VuPool, Run, started, Reaches, collected}
use ematix_probe.Load.VuPool.Bounds.{in_flight-le-count}
use ematix_probe.Load.VuPool.Order.{IsAscending, collected-IsAscending}

module _ {F : Type 0} ⦃fl : Float F⦄ (ieee : IsIeee F)
    (p99_in_unit : in_unit (fl.decimal 99 2) ≡ true) {P : Type 0} ⦃profile : LoadProfile F P⦄
    (plan : P) where
  -- Of a plan with virtual users, with a warmup shorter than the run, whatever the order in which the
  -- tasks and the clock take their steps, fewer than 2^53 of them, and whatever tasks panic, where
  -- `work` gives a sample of the tick that it is called with: what the pool returns has strictly
  -- ascending tick indices, below the shared counter, and `evaluate_load` gives a summary of it, of
  -- the results of the assertions on all of these samples, none dropped as warmup, rated over the
  -- duration less the warmup. The floats obey the IEEE 754 facts of IsIeee, and 0.99 is from 0 to 1.
  pub collected-evaluate_load :
      (count t n : ℕ) (q : Run) (all : List Sample)
      → profile.mode plan ≡ LoadMode.virtual_users count
      → profile.warmup plan < profile.duration plan
      → n < 2 ^ 53
      → let pool : VuPool = record { count = count; duration = profile.duration plan } in
        Reaches (t + profile.duration plan) n (started pool t) q
        → collected pool q ≡ some all
        → (results : List (AssertionResult F)) × IsAscending 0 all
          × All (λ s. s.tick_index < q.next_index) all
          × (eval_from 0 (profile.assertions plan) (profile.duration plan - profile.warmup plan) all
              ≡ some results)
          × (evaluate_load plan all ≡ some (summarise results))
  collected-evaluate_load count t n q all closed window few reaches e =
      let pool : VuPool = record { count = count; duration = profile.duration plan } in
      let (_, drawn, sizes) = in_flight-le-count pool t n q (omega arith) (omega arith) reaches in
      let short : length all ≤ q.next_index = rw e at sizes in
      let (ascending, below, _) =
        collected-IsAscending pool t n q all (omega arith) (omega arith) reaches e in
      let (results, each, summary) =
        evaluate_load-virtual_users plan all ieee p99_in_unit count closed window (omega arith) in
      (results, ascending, below, each, summary)
