-- ===== src/Load/VuPool/Order.antt =====
-- The order of the samples of a `VuPool`, which `run` sorts by tick.
use ematix_probe.Prelude.{
  ℕ, zero, suc, ◌+◌, ◌≤◌, ◌<◌, ◌≡◌, refl, sym, Bool, false, none, some, List, [], ◌∷◌, arith, map,
  count, eqb, ltb, u64_mod, All, Option-cases, inl, inr,
}
use ematix_probe.Prelude.Sort.{sort_insert, sort_by}
use ematix_probe.Load.Plan.{Sample}
use ematix_probe.Load.VuPool.{VuPool, Run, started, Reaches, joined, by_tick, collected}
use ematix_probe.Load.VuPool.Indices.{is_tick, losses, collected-once}

-- `i`, `i + 1`, …, `n` numbers
abbrev pub numbers : ℕ → ℕ → List ℕ
numbers i zero = []
numbers i (suc n) = i ∷ numbers (suc i) n

-- The tick indices are at least `i`.
abbrev IsAbove : ℕ → List Sample → Type 0
IsAbove i = All λ s. i ≤ s.tick_index

-- Each tick index is at most those after it.
abbrev IsOrdered : List Sample → Type 0
IsOrdered [] = Unit
IsOrdered (s ∷ ss) = IsAbove s.tick_index ss × IsOrdered ss

-- Each tick index is at least `i`, and less than those after it.
abbrev pub IsAscending : ℕ → List Sample → Type 0
IsAscending i [] = Unit
IsAscending i (s ∷ ss) = (i ≤ s.tick_index) × IsAscending (suc s.tick_index) ss

abbrev earlier : Sample → Sample → Bool
earlier a b = ltb a.tick_index b.tick_index

IsAbove-weaken : (i j : ℕ) (ss : List Sample) → i ≤ j → IsAbove j ss → IsAbove i ss
IsAbove-weaken i j [] h a = tt
IsAbove-weaken i j (s ∷ ss) h (a, as') = (omega arith, IsAbove-weaken i j ss h as')

IsAbove-sort_insert :
    (i : ℕ) (s : Sample) (ss : List Sample)
    → i ≤ s.tick_index
    → IsAbove i ss
    → IsAbove i (sort_insert earlier s ss)
unfolding sort_insert
IsAbove-sort_insert i s [] h a = (h, tt)
IsAbove-sort_insert i s (u ∷ us) h a = ground (arith, IsAbove-sort_insert i s us)

sort_insert-IsOrdered :
    (s : Sample) (ss : List Sample) → IsOrdered ss → IsOrdered (sort_insert earlier s ss)
unfolding sort_insert
sort_insert-IsOrdered s [] o = (tt, tt)
sort_insert-IsOrdered s (u ∷ us) o = ground (
  arith,
  sort_insert-IsOrdered s us,
  IsAbove-sort_insert u.tick_index s us,
  IsAbove-weaken s.tick_index u.tick_index us,
)

by_tick-IsOrdered : (ss : List Sample) → IsOrdered (by_tick ss)
unfolding by_tick sort_by
by_tick-IsOrdered [] = tt
by_tick-IsOrdered (s ∷ ss) = sort_insert-IsOrdered s (by_tick ss) (by_tick-IsOrdered ss)

-- No sample of tick `k` among those from `k` on: they are later.
IsAbove-suc :
    (k : ℕ) (ss : List Sample) → count (is_tick k) ss ≡ 0 → IsAbove k ss → IsAbove (suc k) ss
IsAbove-suc k [] h a = tt
IsAbove-suc k (s ∷ ss) h (a, as') = ground (arith, IsAbove-suc k ss)

IsOrdered-IsAscending :
    (i : ℕ) (ss : List Sample)
    → IsAbove i ss
    → IsOrdered ss
    → ((k : ℕ) → count (is_tick k) ss ≤ 1)
    → IsAscending i ss
IsOrdered-IsAscending i [] a o once = tt
IsOrdered-IsAscending i (s ∷ ss) (a, as') (o, os) once =
    let one = once s.tick_index in
    let none_left : count (is_tick s.tick_index) ss ≡ 0 = ground arith in
    (
      a,
      IsOrdered-IsAscending (suc s.tick_index) ss (IsAbove-suc s.tick_index ss none_left o) os
          (λ k. let few = once k in ground arith),
    )

IsAscending-count :
    (i k : ℕ) (ss : List Sample) → k < i → IsAscending i ss → count (is_tick k) ss ≡ 0
IsAscending-count i k [] h a = refl
IsAscending-count i k (s ∷ ss) h (a, as') =
    let rest = IsAscending-count (suc s.tick_index) k ss (omega arith) as' in ground arith

-- With one sample for each tick from `i` up to `n`, and no other.
IsAscending-numbers :
    (i m n : ℕ) (ss : List Sample)
    → n ≡ i + m
    → IsAscending i ss
    → ((k : ℕ) → i ≤ k → k < n → count (is_tick k) ss ≡ 1)
    → ((k : ℕ) → n ≤ k → count (is_tick k) ss ≡ 0)
    → map (λ s. s.tick_index) ss ≡ numbers i m
IsAscending-numbers i zero n [] e a each no_more = refl
IsAscending-numbers i zero n (s ∷ ss) e (a, as') each no_more =
    let nothing = no_more s.tick_index (omega arith) in ground arith
IsAscending-numbers i (suc m) n [] e a each no_more =
    let one = each i (omega arith) (omega arith) in absurd (omega arith)
IsAscending-numbers i (suc m) n (s ∷ ss) e (a, as') each no_more =
    let one = each i (omega arith) (omega arith) in
    let later = IsAscending-count (suc s.tick_index) i ss (omega arith) as' in
    let here : s.tick_index ≡ i = ground arith in
    let rest : map (λ s. s.tick_index) ss ≡ numbers (suc i) m =
      IsAscending-numbers (suc i) m n ss (omega arith) (rw here at as')
        (λ k from below. let once = each k (omega arith) below in ground arith)
        (λ k beyond. let nothing = no_more k beyond in ground arith) in
    rw (here, rest) refl

count-below :
    (n : ℕ) (ss : List Sample)
    → ((k : ℕ) → n ≤ k → count (is_tick k) ss ≡ 0)
    → All (λ s. s.tick_index < n) ss
count-below n [] no_more = tt
count-below n (s ∷ ss) no_more =
    let nothing = no_more s.tick_index in
    (ground arith, count-below n ss (λ k beyond. let none_here = no_more k beyond in ground arith))

IsAbove-zero : (ss : List Sample) → IsAbove 0 ss
IsAbove-zero [] = tt
IsAbove-zero (s ∷ ss) = (omega arith, IsAbove-zero ss)

collected-IsOrdered :
    (pool : VuPool) (q : Run) (all : List Sample)
    → 0 < pool.duration
    → collected pool q ≡ some all
    → IsOrdered all
unfolding collected
collected-IsOrdered pool q all long e =
    let timed : eqb pool.duration 0 ≡ false = ground arith in
    elim (Option-cases (joined q.workers)) [
      | inl f ↦ let never : none ≡ some all = rw (timed, collected, f) at e in cc
      | inr (rest, f) ↦
          let result : some (by_tick rest) ≡ some all = rw (timed, collected, f) at e in
          let sorted : by_tick rest ≡ all = ground arith in rw (sym sorted) (by_tick-IsOrdered rest)
    ]

-- Whatever the order in which the tasks and the clock take their steps, fewer than 2^64 of them,
-- and whatever tasks panic, where `work` gives a sample of the tick that it is called with: when
-- the tasks of a pool with a duration have ended, the tick indices of the result are strictly
-- ascending, so that no tick has two samples, and all are below the shared counter; if no task was
-- lost they are exactly 0, 1, 2, … up to the counter.
pub collected-IsAscending :
    (pool : VuPool) (t n : ℕ) (q : Run) (all : List Sample)
    → 0 < pool.duration
    → n < u64_mod
    → Reaches (t + pool.duration) n (started pool t) q
    → collected pool q ≡ some all
    → IsAscending 0 all
      × All (λ s. s.tick_index < q.next_index) all
      × (losses q.workers ≡ 0 → map (λ s. s.tick_index) all ≡ numbers 0 q.next_index)
collected-IsAscending pool t n q all long few reaches e =
    let once = collected-once pool t n q all long few reaches e in
    let ascending : IsAscending 0 all =
      IsOrdered-IsAscending 0 all (IsAbove-zero all) (collected-IsOrdered pool q all long e)
        (λ k. (once k).0) in
    (
      ascending,
      count-below q.next_index all (λ k. (once k).1),
      λ kept.
          IsAscending-numbers 0 q.next_index q.next_index all (omega arith) ascending
            (λ k from below. (once k).2 kept below) (λ k. (once k).1),
    )
