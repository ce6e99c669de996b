-- ===== src/Load/Tasks/Ascending.antt =====
-- Samples that are in the order of their ticks, which `sort_by_key` of the load adapters leaves alone.
use ematix_probe.Prelude.{ℕ, zero, suc, ◌≡◌, refl, ap, ◌∙◌, false, List, [], ◌∷◌, arith, ltb}
use ematix_probe.Prelude.Sort.{sort_insert, sort_by}
use ematix_probe.Load.Plan.{Sample}
use ematix_probe.Load.VuPool.{by_tick}

-- the samples of the ticks `i .. i + n`
abbrev pub from_to : ℕ → ℕ → (ℕ → Sample) → List Sample
from_to i zero sample = []
from_to i (suc n) sample = sample i ∷ from_to (suc i) n sample

module _ (sample : ℕ → Sample) (named : (i : ℕ) → (sample i).tick_index ≡ i) where
  insert-from_to :
      (i n : ℕ)
      → sort_insert
          (λ (a b : Sample). ltb a.tick_index b.tick_index)
          (sample i)
          (from_to (suc i) n sample)
        ≡ sample i ∷ from_to (suc i) n sample
  unfolding sort_insert
  insert-from_to i zero = refl
  insert-from_to i (suc n) =
      let later : ltb (sample (suc i)).tick_index (sample i).tick_index ≡ false =
        rw (named (suc i), named i) (ground arith) in
      rw (later, sort_insert) refl

  pub by_tick-from_to : (i n : ℕ) → by_tick (from_to i n sample) ≡ from_to i n sample
  unfolding by_tick sort_by
  by_tick-from_to i zero = refl
  by_tick-from_to i (suc n) =
      ap (sort_insert (λ (a b : Sample). ltb a.tick_index b.tick_index) (sample i))
        (by_tick-from_to (suc i) n)
      ∙ insert-from_to i n
