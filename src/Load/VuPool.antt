-- ===== src/Load/VuPool.antt =====
-- `VuPool::run` of engine/load/scheduler.rs: the workers as steps that interleave. The clock and
-- what the caller's `work` does are the environment's, so each is a step that may come at any time.
pub mod Indices
pub mod Order
pub mod Bounds
pub mod Settles
pub mod Judged
use ematix_probe.Prelude.{
  ℕ, zero, suc, ◌+◌, ◌≤◌, ◌<◌, ◌≡◌, ℕ, Option, none, some, List, [], ◌∷◌, ◌++◌, Bool, ltb, add_u64,
  if◌then◌else◌, eqb,
}
use ematix_probe.Prelude.Sort.{sort_by}
use ematix_probe.Load.Plan.{Sample}

pub record VuPool : Type 0 where
  pub count : ℕ
  pub duration : ℕ

-- A spawned task with the samples it has: at the head of its loop, past the test of the deadline, in `work(idx).await`, returned,
-- or ended by a panic, which drops its samples.
pub data Worker : Type 0 where
  looping : (samples : List Sample) → Worker
  admitted : (samples : List Sample) → Worker
  working : (idx : ℕ) (samples : List Sample) → Worker
  returned : (samples : List Sample) → Worker
  lost : Worker

-- The clock, the shared counter and the tasks in the order in which they were spawned.
pub record Run : Type 0 where
  pub now : ℕ
  pub next_index : ℕ
  pub workers : List Worker

abbrev pub spawn : ℕ → List Worker
spawn zero = []
spawn (suc n) = looping [] ∷ spawn n

-- the state before any task has run
abbrev pub started : VuPool → ℕ → Run
started pool now = record { now = now; next_index = 0; workers = spawn pool.count }

-- One step of one task, or of the clock. `work(idx)` resolves to a sample of that tick; one that
-- never resolves is a task that never takes its step `finish`.
pub data Step (deadline : ℕ) (p q : Run) : Type 0 where
  wait : (t : ℕ) → p.now ≤ t → q ≡ record p { now = t } → Step deadline p q
  stop :
      (before after : List Worker) (samples : List Sample)
      → p.workers ≡ before ++ looping samples ∷ after
      → deadline ≤ p.now
      → q ≡ record p { workers = before ++ returned samples ∷ after }
      → Step deadline p q
  admit :
      (before after : List Worker) (samples : List Sample)
      → p.workers ≡ before ++ looping samples ∷ after
      → p.now < deadline
      → q ≡ record p { workers = before ++ admitted samples ∷ after }
      → Step deadline p q
  draw :
      (before after : List Worker) (samples : List Sample)
      → p.workers ≡ before ++ admitted samples ∷ after
      → q ≡ record p {
        next_index = add_u64 p.next_index 1;
        workers = before ++ working p.next_index samples ∷ after;
      }
      → Step deadline p q
  finish :
      (before after : List Worker) (idx : ℕ) (samples : List Sample) (s : Sample)
      → p.workers ≡ before ++ working idx samples ∷ after
      → s.tick_index ≡ idx
      → q ≡ record p { workers = before ++ looping (samples ++ s ∷ []) ∷ after }
      → Step deadline p q
  crash :
      (before after : List Worker) (idx : ℕ) (samples : List Sample)
      → p.workers ≡ before ++ working idx samples ∷ after
      → q ≡ record p { workers = before ++ lost ∷ after }
      → Step deadline p q

-- `q` comes `n` steps after `p`.
abbrev pub Reaches : ℕ → ℕ → Run → Run → Type 0
Reaches deadline zero p q = p ≡ q
Reaches deadline (suc n) p q = (r : Run) × Reaches deadline n p r × Step deadline r q

-- `for h in handles { if let Ok(chunk) = h.await { all.append(chunk) } }`; `none` while a task runs
unfoldable pub joined : List Worker → Option (List Sample)
joined [] = some []
joined (returned samples ∷ ws) = elim (joined ws) [ none ↦ none | some all ↦ some (samples ++ all) ]
joined (lost ∷ ws) = joined ws
joined (_ ∷ ws) = none

-- `all.sort_by_key(|s| s.tick_index)`
unfoldable pub by_tick : List Sample → List Sample
by_tick = sort_by (λ a b. ltb a.tick_index b.tick_index)

-- what `run` returns in a state whose tasks have all ended
unfoldable pub collected : VuPool → Run → Option (List Sample)
unfolding joined by_tick
collected pool q =
    if eqb pool.duration 0
    then some []
    else elim (joined q.workers) [ none ↦ none | some all ↦ some (by_tick all) ]
