-- ===== src/Load/VuPool/Settles.antt =====
-- `VuPool::run` of engine/load/scheduler.rs after its deadline: it comes to an end.
use ematix_probe.Prelude.{
  ℕ, zero, suc, ◌+◌, ◌*◌, ◌≤◌, ◌<◌, ◌≡◌, ◌⊎◌, inl, inr, refl, sym, ap, ◌∙◌, none, some, List, [],
  ◌∷◌, ◌++◌, arith, length, eqb, Bool-cases,
}
use ematix_probe.Load.Plan.{Sample}
use ematix_probe.Load.VuPool.{VuPool, Worker, Run, Step, joined, by_tick, collected}

-- How many steps a task has left after the deadline, at most: the draw, the return from `work` and
-- the stop.
abbrev left : Worker → ℕ
left (Worker.looping samples) = 1
left (Worker.admitted samples) = 3
left (Worker.working idx samples) = 2
left (Worker.returned samples) = 0
left Worker.lost = 0

unfoldable remaining : List Worker → ℕ
remaining [] = 0
remaining (w ∷ ws) = left w + remaining ws

remaining-append :
    (before : List Worker) (w : Worker) (after : List Worker)
    → remaining (before ++ w ∷ after) ≡ remaining before + left w + remaining after
unfolding remaining
remaining-append [] w after = omega arith
remaining-append (b ∷ before) w after = omega (arith, remaining-append before w after)

remaining-le : (ws : List Worker) → remaining ws ≤ 3 * length ws
unfolding remaining
remaining-le [] = omega arith
remaining-le (Worker.looping samples ∷ ws) = omega (arith, remaining-le ws)
remaining-le (Worker.admitted samples ∷ ws) = omega (arith, remaining-le ws)
remaining-le (Worker.working idx samples ∷ ws) = omega (arith, remaining-le ws)
remaining-le (Worker.returned samples ∷ ws) = omega (arith, remaining-le ws)
remaining-le (Worker.lost ∷ ws) = omega (arith, remaining-le ws)

-- A step of a task.
abbrev pub IsTask : {deadline : ℕ} {p q : Run} → Step deadline p q → Type 0
IsTask (Step.wait t later e) = ⊥
IsTask (Step.stop before after samples at late e) = Unit
IsTask (Step.admit before after samples at early e) = Unit
IsTask (Step.draw before after samples at e) = Unit
IsTask (Step.finish before after idx samples s at tick e) = Unit
IsTask (Step.crash before after idx samples at e) = Unit

-- `q` comes `n` steps of tasks after `p`.
abbrev pub TasksReach : ℕ → ℕ → Run → Run → Type 0
TasksReach deadline zero p q = p ≡ q
TasksReach deadline (suc n) p q =
    (r : Run) × TasksReach deadline n p r × (step : Step deadline r q) × IsTask step

-- A task that changes to one with less left.
change-remaining :
    (before after : List Worker) (w v : Worker) (ws : List Worker)
    → ws ≡ before ++ w ∷ after
    → left v < left w
    → remaining (before ++ v ∷ after) < remaining ws
change-remaining before after w v ws at less =
    let was = remaining-append before w after in
    let is' = remaining-append before v after in rw at (omega arith)

step-remaining :
    (deadline : ℕ) (p q : Run) (step : Step deadline p q)
    → IsTask step
    → deadline ≤ p.now
    → (remaining q.workers < remaining p.workers) × (q.now ≡ p.now)
step-remaining deadline p q (Step.wait t later e) task late = absurd task
step-remaining deadline p q (Step.stop before after samples at after_deadline e) task late = rw e (
  change-remaining before after (Worker.looping samples) (Worker.returned samples) p.workers at
      (omega arith),
  refl,
)
step-remaining deadline p q (Step.admit before after samples at early e) task late =
    absurd (omega arith)
step-remaining deadline p q (Step.draw before after samples at e) task late = rw e (
  change-remaining before after (Worker.admitted samples) (Worker.working p.next_index samples)
      p.workers at (omega arith),
  refl,
)
step-remaining deadline p q (Step.finish before after idx samples s at tick e) task late = rw e (
  change-remaining before after (Worker.working idx samples) (Worker.looping (samples ++ s ∷ []))
      p.workers at (omega arith),
  refl,
)
step-remaining deadline p q (Step.crash before after idx samples at e) task late = rw e (
  change-remaining before after (Worker.working idx samples) Worker.lost p.workers at (omega arith),
  refl,
)

reach-remaining :
    (deadline n : ℕ) (p q : Run)
    → TasksReach deadline n p q
    → deadline ≤ p.now
    → (n + remaining q.workers ≤ remaining p.workers) × (q.now ≡ p.now)
reach-remaining deadline zero p q e late = rw (sym e) (omega arith, refl)
reach-remaining deadline (suc n) p q (r, before, step, task) late =
    let (b, same) = reach-remaining deadline n p r before late in
    let (less, still) = step-remaining deadline r q step task (omega arith) in
    (omega arith, still ∙ same)

-- A task that has not ended.
abbrev IsActive : Worker → Type 0
IsActive (Worker.looping samples) = Unit
IsActive (Worker.admitted samples) = Unit
IsActive (Worker.working idx samples) = Unit
IsActive (Worker.returned samples) = ⊥
IsActive Worker.lost = ⊥

-- Among the tasks there is one that has not ended.
abbrev HasActive : List Worker → Type 0
HasActive ws =
    (before : List Worker) × (w : Worker) × (after : List Worker) × (ws ≡ before ++ w ∷ after)
    × IsActive w

abbrev IsJoined : List Worker → Type 0
IsJoined ws = (all : List Sample) × (joined ws ≡ some all)

ended-cons :
    (w : Worker) (ws : List Worker)
    → (IsJoined ws → IsJoined (w ∷ ws))
    → IsJoined ws ⊎ HasActive ws
    → IsJoined (w ∷ ws) ⊎ HasActive (w ∷ ws)
ended-cons w ws k (inl j) = inl (k j)
ended-cons w ws k (inr (before, v, after, at, a)) =
    inr (w ∷ before, v, after, ap (λ l. w ∷ l) at, a)

IsJoined-or_active : (ws : List Worker) → IsJoined ws ⊎ HasActive ws
unfolding joined
IsJoined-or_active [] = inl ([], refl)
IsJoined-or_active (Worker.looping samples ∷ ws) = inr ([], Worker.looping samples, ws, refl, tt)
IsJoined-or_active (Worker.admitted samples ∷ ws) = inr ([], Worker.admitted samples, ws, refl, tt)
IsJoined-or_active (Worker.working idx samples ∷ ws) =
    inr ([], Worker.working idx samples, ws, refl, tt)
IsJoined-or_active (Worker.returned samples ∷ ws) =
    ended-cons (Worker.returned samples) ws (λ (rest, e). (samples ++ rest, rw (e, joined) refl))
      (IsJoined-or_active ws)
IsJoined-or_active (Worker.lost ∷ ws) =
    ended-cons Worker.lost ws (λ (rest, e). (rest, e)) (IsJoined-or_active ws)

-- Some task can take a step.
abbrev pub CanStep : ℕ → Run → Type 0
CanStep deadline p = (q : Run) × (step : Step deadline p q) × IsTask step

active-CanStep :
    (deadline : ℕ) (p : Run) (before : List Worker) (w : Worker) (after : List Worker)
    → p.workers ≡ before ++ w ∷ after
    → IsActive w
    → deadline ≤ p.now
    → CanStep deadline p
active-CanStep deadline p before (Worker.looping samples) after at a late =
    (_, Step.stop before after samples at late refl, tt)
active-CanStep deadline p before (Worker.admitted samples) after at a late =
    (_, Step.draw before after samples at refl, tt)
active-CanStep deadline p before (Worker.working idx samples) after at a late = (
  _,
  Step.finish before after idx samples
      (record { tick_index = idx; latency = 0; status_code = none; error = none }) at refl refl,
  tt,
)
active-CanStep deadline p before (Worker.returned samples) after at a late = absurd a
active-CanStep deadline p before Worker.lost after at a late = absurd a

joined-collected :
    (pool : VuPool) (q : Run)
    → IsJoined q.workers
    → (all : List Sample) × (collected pool q ≡ some all)
unfolding collected
joined-collected pool q (all, e) = elim (Bool-cases (eqb pool.duration 0)) [
  | inl none_at_all ↦ ([], rw (none_at_all, collected) refl)
  | inr timed ↦ (by_tick all, rw (timed, collected, e) refl)
]

-- Once the clock shows the deadline, a pool comes to its end, whatever the order of its tasks and
-- whatever task panics: however the tasks have run since, they have taken at most three steps each
-- (the draw of an index, the end of `work` and the stop), and then either all have ended and `run`
-- has its result, or some task can take a step.
pub collected-settles :
    (pool : VuPool) (deadline n : ℕ) (p q : Run)
    → deadline ≤ p.now
    → TasksReach deadline n p q
    → (n ≤ 3 * length p.workers)
      × (((all : List Sample) × (collected pool q ≡ some all)) ⊎ CanStep deadline q)
collected-settles pool deadline n p q late reach =
    let (b, same) = reach-remaining deadline n p q reach late in
    let few = remaining-le p.workers in
    (
      omega arith,
      elim (IsJoined-or_active q.workers) [
        | inl j ↦ inl (joined-collected pool q j)
        | inr (before, w, after, at, a) ↦
            inr (active-CanStep deadline q before w after at a (omega arith))
      ],
    )
