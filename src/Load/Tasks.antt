-- ===== src/Load/Tasks.antt =====
-- `collect_constant_rate` of adapters/load/http.rs and adapters/load/postgres.rs, over what a tick's
-- task comes to: its sample, or a panic with the text of the `JoinError`. The tasks run by themselves,
-- so what each comes to is the environment's.
pub mod Ascending
pub mod Collected
pub mod Judged
pub mod Degenerate
use ematix_probe.Prelude.{ℕ, List, [], ◌∷◌}
use ematix_probe.Message.{lit, str}
use ematix_probe.Float.{Float}
use ematix_probe.Adapter.{AdapterError, Outcome, returned, raised, and_then}
use ematix_probe.Blocking.{Reply, replied, unwound}
use ematix_probe.Load.Plan.{Sample}
use ematix_probe.Load.Scheduler.{Tick, Reading, new, ticks}
use ematix_probe.Load.VuPool.{by_tick}

module _ {F : Type 0} where
  -- `for h in handles { samples.push(h.await.map_err(…)?) }`
  unfoldable pub join_tasks : (ℕ → Reply Sample) → List Tick → Outcome F (List Sample)
  unfolding and_then
  join_tasks task [] = returned []
  join_tasks task (tick ∷ ts) = elim (task tick.index) [
    | unwound e ↦ raised (AdapterError.connection (lit "join: " ∷ str e ∷ []))
    | replied s ↦ and_then (join_tasks task ts) λ samples. returned (s ∷ samples)
  ]

module _ {F : Type 0} ⦃fl : Float F⦄ where
  unfoldable pub collect_ticks : (ℕ → Reply Sample) → List Reading → F → ℕ → Outcome F (List Sample)
  unfolding and_then
  collect_ticks task readings rps duration =
      and_then (ticks readings (new rps duration))
        λ ts. and_then (join_tasks task ts) λ samples. returned (by_tick samples)
