-- ===== src/Prelude/Sort.antt =====
-- `sort_by` of the standard library, a stable sort, as an insertion sort. `less y x` is the
-- comparison's answer `Less`; all else leaves the two elements in their order.
use mathlib.Core.Bool.{Bool}
use mathlib.Core.List.{List, [], ◌∷◌}
use ematix_probe.Prelude.Tests.{if◌then◌else◌}

module _ {ℓ} {A : Type ℓ} (less : A → A → Bool) where
  unfoldable pub sort_insert : A → List A → List A
  sort_insert x [] = x ∷ []
  sort_insert x (y ∷ ys) = if less y x then y ∷ sort_insert x ys else x ∷ y ∷ ys

  unfoldable pub sort_by : List A → List A
  unfolding sort_insert
  sort_by [] = []
  sort_by (x ∷ xs) = sort_insert x (sort_by xs)
