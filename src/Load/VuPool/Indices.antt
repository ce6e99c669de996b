-- ===== src/Load/VuPool/Indices.antt =====
-- The tick indices of the samples of a `VuPool`, over every interleaving.
use ematix_probe.Prelude.{
  ℕ, zero, suc, ◌+◌, ◌≤◌, ◌<◌, ◌≡◌, ◌⊎◌, inl, inr, refl, sym, ap, ◌∙◌, Bool, false, none, some,
  List, [], ◌∷◌, ◌++◌, arith, count, count-append, eqb, ltb, add_u64, u64_mod, if◌then◌else◌,
  Option-cases,
}
use ematix_probe.Scan.Sorting.{count-sort_by}
use ematix_probe.Load.Plan.{Sample}
use ematix_probe.Load.VuPool.{
  VuPool, Worker, Run, spawn, started, Step, Reaches, joined, by_tick, collected,
}

abbrev pub is_tick : ℕ → Sample → Bool
is_tick k s = eqb s.tick_index k

-- How many samples and calls of `work` a task has for tick `k`, and all tasks together.
abbrev held : ℕ → Worker → ℕ
held k (Worker.looping samples) = count (is_tick k) samples
held k (Worker.admitted samples) = count (is_tick k) samples
held k (Worker.working idx samples) = (if eqb idx k then 1 else 0) + count (is_tick k) samples
held k (Worker.returned samples) = count (is_tick k) samples
held k Worker.lost = 0

unfoldable holders : ℕ → List Worker → ℕ
holders k [] = 0
holders k (w ∷ ws) = held k w + holders k ws

holders-append :
    (k : ℕ) (before : List Worker) (w : Worker) (after : List Worker)
    → holders k (before ++ w ∷ after) ≡ holders k before + held k w + holders k after
unfolding holders
holders-append k [] w after = omega arith
holders-append k (b ∷ before) w after = omega (arith, holders-append k before w after)

-- How many tasks ended by a panic.
abbrev pub loss : Worker → ℕ
loss Worker.lost = 1
loss _ = 0

unfoldable pub losses : List Worker → ℕ
losses [] = 0
losses (w ∷ ws) = loss w + losses ws

pub losses-append :
    (before : List Worker) (w : Worker) (after : List Worker)
    → losses (before ++ w ∷ after) ≡ losses before + loss w + losses after
unfolding losses
losses-append [] w after = omega arith
losses-append (b ∷ before) w after = omega (arith, losses-append before w after)

-- No tick is held twice, none that was not drawn, and each that was drawn unless a task was lost.
abbrev IsOnce : ℕ → List Worker → Type 0
IsOnce next ws =
    (k : ℕ)
    → (holders k ws ≤ 1) × (next ≤ k → holders k ws ≡ 0) × (k < next → 1 ≤ holders k ws + losses ws)

-- A task that changes to one that holds no more, and no less unless it is lost.
IsOnce-change :
    (next : ℕ) (before after : List Worker) (w v : Worker)
    → ((k : ℕ) → (held k v ≤ held k w) × ((held k w + loss w ≤ held k v + loss v) ⊎ (1 ≤ loss v)))
    → IsOnce next (before ++ w ∷ after)
    → IsOnce next (before ++ v ∷ after)
IsOnce-change next before after w v change once k =
    let (one, fresh, drawn) = once k in
    let was = holders-append k before w after in
    let is' = holders-append k before v after in
    let was_lost = losses-append before w after in
    let is_lost = losses-append before v after in
    let (less, more) = change k in
    (
      omega arith,
      (λ h. let zero_then = fresh h in omega arith),
      λ h.
          let some_then = drawn h in
          elim more [ inl as_much ↦ omega arith | inr gone ↦ omega arith ],
    )

IsOnce-draw :
    (next : ℕ) (before after : List Worker) (samples : List Sample)
    → IsOnce next (before ++ Worker.admitted samples ∷ after)
    → IsOnce (suc next) (before ++ Worker.working next samples ∷ after)
IsOnce-draw next before after samples once k =
    let (one, fresh, drawn) = once k in
    let was = holders-append k before (Worker.admitted samples) after in
    let is' = holders-append k before (Worker.working next samples) after in
    let was_lost = losses-append before (Worker.admitted samples) after in
    let is_lost = losses-append before (Worker.working next samples) after in
    (ground arith, (λ h. let zero_then = fresh (omega arith) in ground arith), λ h. ground arith)

finish-held :
    (k idx : ℕ) (samples : List Sample) (s : Sample)
    → s.tick_index ≡ idx
    → held k (Worker.looping (samples ++ s ∷ [])) ≡ held k (Worker.working idx samples)
finish-held k idx samples s e = ground (arith, count-append (is_tick k) samples (s ∷ []))

-- The invariant after `n` steps.
abbrev Holds : ℕ → Run → Type 0
Holds n p = (p.next_index ≤ n) × IsOnce p.next_index p.workers

step-Holds :
    (deadline n : ℕ) (p q : Run) → suc n < u64_mod → Holds n p → Step deadline p q → Holds (suc n) q
step-Holds deadline n p q few (h, once) (Step.wait t later e) = rw e (omega arith, once)
step-Holds deadline n p q few (h, once) (Step.stop before after samples at late e) = rw e (
  omega arith,
  IsOnce-change p.next_index before after (Worker.looping samples) (Worker.returned samples)
      (λ k. (omega arith, inl (omega arith))) (rw at at once),
)
step-Holds deadline n p q few (h, once) (Step.admit before after samples at early e) = rw e (
  omega arith,
  IsOnce-change p.next_index before after (Worker.looping samples) (Worker.admitted samples)
      (λ k. (omega arith, inl (omega arith))) (rw at at once),
)
step-Holds deadline n p q few (h, once) (Step.draw before after samples at e) =
    let next : add_u64 p.next_index 1 ≡ suc p.next_index = omega arith in
    rw (e, next) (omega arith, IsOnce-draw p.next_index before after samples (rw at at once))
step-Holds deadline n p q few (h, once) (Step.finish before after idx samples s at tick e) = rw e (
  omega arith,
  IsOnce-change p.next_index before after (Worker.working idx samples)
      (Worker.looping (samples ++ s ∷ []))
      (λ k. let same = finish-held k idx samples s tick in (omega arith, inl (omega arith)))
      (rw at at once),
)
step-Holds deadline n p q few (h, once) (Step.crash before after idx samples at e) = rw e (
  omega arith,
  IsOnce-change p.next_index before after (Worker.working idx samples) Worker.lost
      (λ k. (omega arith, inr (omega arith))) (rw at at once),
)

spawn-holders : (k n : ℕ) → holders k (spawn n) ≡ 0
unfolding holders
spawn-holders k zero = refl
spawn-holders k (suc n) = omega (arith, spawn-holders k n)

reaches-Holds :
    (deadline n t : ℕ) (pool : VuPool) (q : Run)
    → n < u64_mod
    → Reaches deadline n (started pool t) q
    → Holds n q
reaches-Holds deadline zero t pool q few e = rw (sym e) (
  omega arith,
  λ k.
      let none_held = spawn-holders k pool.count in
      (omega arith, (λ h. none_held), λ h. absurd (omega arith)),
)
reaches-Holds deadline (suc n) t pool q few (r, before, step) =
    step-Holds deadline n r q few (reaches-Holds deadline n t pool r (omega arith) before) step

joined-holders :
    (k : ℕ) (ws : List Worker) (all : List Sample)
    → joined ws ≡ some all
    → count (is_tick k) all ≡ holders k ws
unfolding joined holders
joined-holders k [] [] e = refl
joined-holders k [] (s ∷ all) e = cc
joined-holders k (Worker.returned samples ∷ ws) all e = elim (Option-cases (joined ws)) [
  | inl f ↦ ground arith
  | inr (rest, f) ↦
      let same : samples ++ rest ≡ all = ground arith in
      rw (sym same)
        (omega (arith, count-append (is_tick k) samples rest, joined-holders k ws rest f))
]
joined-holders k (Worker.lost ∷ ws) all e = omega (arith, joined-holders k ws all e)
joined-holders k (Worker.looping samples ∷ ws) all e = cc
joined-holders k (Worker.admitted samples ∷ ws) all e = cc
joined-holders k (Worker.working idx samples ∷ ws) all e = cc

-- Whatever the order in which the tasks and the clock take their steps, fewer than 2^64 of them,
-- and whatever tasks panic, where `work` gives a sample of the tick that it is called with: when
-- the tasks of a pool with a duration have ended, no two samples of the result have the same tick
-- index, none has an index that was not drawn from the counter, and if no task was lost each index
-- that was drawn has its sample.
pub collected-once :
    (pool : VuPool) (t n : ℕ) (q : Run) (all : List Sample)
    → 0 < pool.duration
    → n < u64_mod
    → Reaches (t + pool.duration) n (started pool t) q
    → collected pool q ≡ some all
    → (k : ℕ)
    → (count (is_tick k) all ≤ 1)
      × (q.next_index ≤ k → count (is_tick k) all ≡ 0)
      × (losses q.workers ≡ 0 → k < q.next_index → count (is_tick k) all ≡ 1)
unfolding collected by_tick
collected-once pool t n q all long few reaches e k =
    let timed : eqb pool.duration 0 ≡ false = ground arith in
    elim (Option-cases (joined q.workers)) [
      | inl f ↦ let never : none ≡ some all = rw (timed, collected, f) at e in cc
      | inr (rest, f) ↦
          let (h, once) = reaches-Holds (t + pool.duration) n t pool q few reaches in
          let (one, fresh, drawn) = once k in
          let result : some (by_tick rest) ≡ some all = rw (timed, collected, f) at e in
          let sorted : by_tick rest ≡ all = ground arith in
          let same : count (is_tick k) all ≡ holders k q.workers =
            ap (count (is_tick k)) (sym sorted)
            ∙ count-sort_by (λ a b. ltb a.tick_index b.tick_index) (is_tick k) rest
            ∙ joined-holders k q.workers rest f in
          (
            omega arith,
            (λ late. same ∙ fresh late),
            λ kept early. let some_held = drawn early in omega arith,
          )
    ]
