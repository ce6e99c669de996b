-- ===== src/Load/VuPool/Bounds.antt =====
-- How many calls of `work` a `VuPool` has in flight, and how many samples it ends with.
use ematix_probe.Prelude.{
  ℕ, zero, suc, ◌+◌, ◌≤◌, ◌<◌, ◌≡◌, refl, sym, ap, ◌∙◌, false, Option, none, some, List, [], ◌∷◌,
  ◌++◌, arith, length, length-append, eqb, ltb, add_u64, u64_mod, Option-cases, inl, inr,
}
use ematix_probe.Scan.Sorting.{length-sort_by}
use ematix_probe.Load.Plan.{Sample}
use ematix_probe.Load.VuPool.{
  VuPool, Worker, Run, spawn, started, Step, Reaches, joined, by_tick, collected,
}
use ematix_probe.Load.VuPool.Indices.{losses, loss, losses-append}

-- How many tasks are in `work`.
abbrev busy : Worker → ℕ
busy (Worker.working idx samples) = 1
busy _ = 0

unfoldable pub in_flight : List Worker → ℕ
in_flight [] = 0
in_flight (w ∷ ws) = busy w + in_flight ws

in_flight-append :
    (before : List Worker) (w : Worker) (after : List Worker)
    → in_flight (before ++ w ∷ after) ≡ in_flight before + busy w + in_flight after
unfolding in_flight
in_flight-append [] w after = omega arith
in_flight-append (b ∷ before) w after = omega (arith, in_flight-append before w after)

-- How many samples the tasks have.
abbrev size : Worker → ℕ
size (Worker.looping samples) = length samples
size (Worker.admitted samples) = length samples
size (Worker.working idx samples) = length samples
size (Worker.returned samples) = length samples
size Worker.lost = 0

unfoldable sizes : List Worker → ℕ
sizes [] = 0
sizes (w ∷ ws) = size w + sizes ws

sizes-append :
    (before : List Worker) (w : Worker) (after : List Worker)
    → sizes (before ++ w ∷ after) ≡ sizes before + size w + sizes after
unfolding sizes
sizes-append [] w after = omega arith
sizes-append (b ∷ before) w after = omega (arith, sizes-append before w after)

length-append-cons :
    (before : List Worker) (w : Worker) (after : List Worker)
    → length (before ++ w ∷ after) ≡ suc (length before + length after)
length-append-cons [] w after = omega arith
length-append-cons (b ∷ before) w after = omega (arith, length-append-cons before w after)

-- Each index that was drawn is in flight or has its sample, unless its task was lost.
abbrev Accounts : ℕ → ℕ → List Worker → Type 0
Accounts count next ws =
    (length ws ≡ count)
    × (in_flight ws + sizes ws ≤ next)
    × (losses ws ≡ 0 → in_flight ws + sizes ws ≡ next)

-- A task that changes, with `drawn` indices taken.
Accounts-change :
    (count next drawn : ℕ) (before after : List Worker) (w v : Worker)
    → busy v + size v ≤ busy w + size w + drawn
    → (loss v ≡ 0 → (busy v + size v ≡ busy w + size w + drawn) × (loss w ≡ 0))
    → Accounts count next (before ++ w ∷ after)
    → Accounts count (next + drawn) (before ++ v ∷ after)
Accounts-change count next drawn before after w v less same (long, some_, all_) =
    let l = length-append-cons before w after in
    let l' = length-append-cons before v after in
    let f = in_flight-append before w after in
    let f' = in_flight-append before v after in
    let s = sizes-append before w after in
    let s' = sizes-append before v after in
    let x = losses-append before w after in
    let x' = losses-append before v after in
    (
      omega arith,
      omega arith,
      λ none_lost.
          let (e, kept) = same (omega arith) in let was = all_ (omega arith) in omega arith,
    )

-- A task that takes no index.
Accounts-still :
    (count next : ℕ) (before after : List Worker) (w v : Worker)
    → busy v + size v ≤ busy w + size w
    → (loss v ≡ 0 → (busy v + size v ≡ busy w + size w) × (loss w ≡ 0))
    → Accounts count next (before ++ w ∷ after)
    → Accounts count next (before ++ v ∷ after)
Accounts-still count next before after w v less same a =
    let moved =
      Accounts-change count next 0 before after w v (omega arith)
        (λ h. let (e, k) = same h in (omega arith, k)) a in
    (moved.0, omega (arith, moved.1), λ h. omega (arith, moved.2 h))

-- The invariant after `n` steps.
abbrev Holds : ℕ → ℕ → Run → Type 0
Holds count n p = (p.next_index ≤ n) × Accounts count p.next_index p.workers

step-Holds :
    (deadline count n : ℕ) (p q : Run)
    → suc n < u64_mod
    → Holds count n p
    → Step deadline p q
    → Holds count (suc n) q
step-Holds deadline count n p q few (h, a) (Step.wait t later e) = rw e (omega arith, a)
step-Holds deadline count n p q few (h, a) (Step.stop before after samples at late e) = rw e (
  omega arith,
  Accounts-still count p.next_index before after (Worker.looping samples) (Worker.returned samples)
      (omega arith) (λ k. (omega arith, omega arith)) (rw at at a),
)
step-Holds deadline count n p q few (h, a) (Step.admit before after samples at early e) = rw e (
  omega arith,
  Accounts-still count p.next_index before after (Worker.looping samples) (Worker.admitted samples)
      (omega arith) (λ k. (omega arith, omega arith)) (rw at at a),
)
step-Holds deadline count n p q few (h, a) (Step.draw before after samples at e) =
    let next : add_u64 p.next_index 1 ≡ p.next_index + 1 = omega arith in
    rw (e, next)
      (
        omega arith,
        Accounts-change count p.next_index 1 before after (Worker.admitted samples)
            (Worker.working p.next_index samples) (omega arith) (λ k. (omega arith, omega arith))
            (rw at at a),
      )
step-Holds deadline count n p q few (h, a) (Step.finish before after idx samples s at tick e) =
    rw e (
      omega arith,
      Accounts-still count p.next_index before after (Worker.working idx samples)
          (Worker.looping (samples ++ s ∷ []))
          (let l = length-append samples (s ∷ []) in omega arith)
          (λ k. let l = length-append samples (s ∷ []) in (omega arith, omega arith)) (rw at at a),
    )
step-Holds deadline count n p q few (h, a) (Step.crash before after idx samples at e) = rw e (
  omega arith,
  Accounts-still count p.next_index before after (Worker.working idx samples) Worker.lost
      (omega arith) (λ k. absurd (omega arith)) (rw at at a),
)

spawn-Accounts : (n : ℕ) → (length (spawn n) ≡ n) × (in_flight (spawn n) + sizes (spawn n) ≡ 0)
unfolding in_flight sizes
spawn-Accounts zero = (refl, omega arith)
spawn-Accounts (suc n) = let (l, s) = spawn-Accounts n in (omega arith, omega arith)

reaches-Holds :
    (deadline n t : ℕ) (pool : VuPool) (q : Run)
    → n < u64_mod
    → Reaches deadline n (started pool t) q
    → Holds pool.count n q
reaches-Holds deadline zero t pool q few e =
    let (l, s) = spawn-Accounts pool.count in
    rw (sym e) (omega arith, (l, omega arith, λ h. omega arith))
reaches-Holds deadline (suc n) t pool q few (r, before, step) =
    step-Holds deadline pool.count n r q few
      (reaches-Holds deadline n t pool r (omega arith) before) step

in_flight-le-length : (ws : List Worker) → in_flight ws ≤ length ws
unfolding in_flight
in_flight-le-length [] = omega arith
in_flight-le-length (Worker.looping samples ∷ ws) = omega (arith, in_flight-le-length ws)
in_flight-le-length (Worker.admitted samples ∷ ws) = omega (arith, in_flight-le-length ws)
in_flight-le-length (Worker.working idx samples ∷ ws) = omega (arith, in_flight-le-length ws)
in_flight-le-length (Worker.returned samples ∷ ws) = omega (arith, in_flight-le-length ws)
in_flight-le-length (Worker.lost ∷ ws) = omega (arith, in_flight-le-length ws)

-- The samples of tasks that have ended, none of which is in flight.
joined-sizes :
    (ws : List Worker) (all : List Sample)
    → joined ws ≡ some all
    → (length all ≡ sizes ws) × (in_flight ws ≡ 0)
unfolding joined sizes in_flight
joined-sizes [] [] e = (refl, refl)
joined-sizes [] (s ∷ all) e = cc
joined-sizes (Worker.returned samples ∷ ws) all e = elim (Option-cases (joined ws)) [
  | inl f ↦ ground arith
  | inr (rest, f) ↦
      let same : samples ++ rest ≡ all = ground arith in
      let (l, b) = joined-sizes ws rest f in
      let joint = length-append samples rest in (ap length (sym same) ∙ omega arith, omega arith)
]
joined-sizes (Worker.lost ∷ ws) all e =
    let (l, b) = joined-sizes ws all e in (omega arith, omega arith)
joined-sizes (Worker.looping samples ∷ ws) all e = cc
joined-sizes (Worker.admitted samples ∷ ws) all e = cc
joined-sizes (Worker.working idx samples ∷ ws) all e = cc

collected-length :
    (pool : VuPool) (q : Run) (all : List Sample)
    → 0 < pool.duration
    → collected pool q ≡ some all
    → (length all ≡ sizes q.workers) × (in_flight q.workers ≡ 0)
unfolding collected by_tick
collected-length pool q all long e =
    let timed : eqb pool.duration 0 ≡ false = ground arith in
    elim (Option-cases (joined q.workers)) [
      | inl f ↦ let never : none ≡ some all = rw (timed, collected, f) at e in cc
      | inr (rest, f) ↦
          let result : some (by_tick rest) ≡ some all = rw (timed, collected, f) at e in
          let sorted : by_tick rest ≡ all = ground arith in
          let (l, b) = joined-sizes q.workers rest f in
          let kept = length-sort_by (λ (a b : Sample). ltb a.tick_index b.tick_index) rest in
          (ap length (sym sorted) ∙ kept ∙ l, b)
    ]

-- the samples of a result, if there is one
abbrev pub samples : Option (List Sample) → List Sample
samples none = []
samples (some all) = all

collected-le :
    (pool : VuPool) (q : Run) (o : Option (List Sample)) (n : ℕ)
    → 0 < pool.duration
    → collected pool q ≡ o
    → in_flight q.workers + sizes q.workers ≤ n
    → length (samples o) ≤ n
collected-le pool q none n long e h = omega arith
collected-le pool q (some all) n long e h =
    let (l, b) = collected-length pool q all long e in omega arith

-- Whatever the order in which the tasks and the clock take their steps, fewer than 2^64 of them: in
-- every state that a pool with a duration reaches, at most `count` calls of `work` are in flight,
-- the counter shows at most the number of steps, and the result, once there is one, has at most one
-- sample for each index drawn from the counter.
pub in_flight-le-count :
    (pool : VuPool) (t n : ℕ) (q : Run)
    → 0 < pool.duration
    → n < u64_mod
    → Reaches (t + pool.duration) n (started pool t) q
    → (in_flight q.workers ≤ pool.count)
      × (q.next_index ≤ n)
      × (length (samples (collected pool q)) ≤ q.next_index)
in_flight-le-count pool t n q long few reaches =
    let (h, (same, most, all_)) = reaches-Holds (t + pool.duration) n t pool q few reaches in
    let busy_ = in_flight-le-length q.workers in
    (omega arith, h, collected-le pool q (collected pool q) q.next_index long refl most)
