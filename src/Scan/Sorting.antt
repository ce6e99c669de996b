-- ===== src/Scan/Sorting.antt =====
-- The sort of the percentile arm, over values that are no NaN.
use ematix_probe.Prelude.{
  ℕ, zero, suc, ◌<◌, ◌≡◌, refl, Bool, true, some, List, [], ◌∷◌, arith, length, count, get_elem?,
  All,
}
use ematix_probe.Prelude.Sort.{sort_insert, sort_by}
use ematix_probe.Float.{Float, IsIeee}

module _ {ℓ} {A : Type ℓ} (less : A → A → Bool) where
  length-sort_insert : (x : A) (xs : List A) → length (sort_insert less x xs) ≡ suc (length xs)
  unfolding sort_insert
  length-sort_insert x [] = refl
  length-sort_insert x (y ∷ ys) = ground (arith, length-sort_insert x ys)

  pub length-sort_by : (xs : List A) → length (sort_by less xs) ≡ length xs
  unfolding sort_by
  length-sort_by [] = refl
  length-sort_by (x ∷ xs) = omega (arith, length-sort_insert x (sort_by less xs), length-sort_by xs)

  -- Sorting keeps how many elements pass a test.
  count-sort_insert :
      (p : A → Bool) (x : A) (xs : List A) → count p (sort_insert less x xs) ≡ count p (x ∷ xs)
  unfolding sort_insert
  count-sort_insert p x [] = refl
  count-sort_insert p x (y ∷ ys) = ground (arith, count-sort_insert p x ys)

  pub count-sort_by : (p : A → Bool) (xs : List A) → count p (sort_by less xs) ≡ count p xs
  unfolding sort_by
  count-sort_by p [] = refl
  count-sort_by p (x ∷ xs) =
      ground (arith, count-sort_insert p x (sort_by less xs), count-sort_by p xs)

pub get_elem?-of_lt {ℓ} :
    {A : Type ℓ} (xs : List A) (i : ℕ) → i < length xs → (a : A) × (get_elem? xs i ≡ some a)
get_elem?-of_lt [] i h = absurd (omega arith)
get_elem?-of_lt (x ∷ xs) zero h = (x, refl)
get_elem?-of_lt (x ∷ xs) (suc i) h = get_elem?-of_lt xs i (omega arith)

module _ {F : Type 0} ⦃fl : Float F⦄ where
  -- No value of the list is a NaN.
  abbrev pub NoNan : List F → Type 0
  NoNan = All λ x. fl.le x x ≡ true

  -- Each value is at most every value after it.
  abbrev pub IsSorted : List F → Type 0
  IsSorted [] = Unit
  IsSorted (x ∷ xs) = All (λ y. fl.le x y ≡ true) xs × IsSorted xs

  module _ (ieee : IsIeee F) where
    All-le_trans :
        (x y : F) (zs : List F)
        → fl.le x y ≡ true
        → All (λ z. fl.le y z ≡ true) zs
        → All (λ z. fl.le x z ≡ true) zs
    All-le_trans x y [] h a = tt
    All-le_trans x y (z ∷ zs) h (a, as') = (ieee.le_trans x y z h a, All-le_trans x y zs h as')

    NoNan-sort_insert :
        (P : F → Type 0) (x : F) (xs : List F) → P x → All P xs → All P (sort_insert fl.lt x xs)
    unfolding sort_insert
    NoNan-sort_insert P x [] p q = (p, tt)
    NoNan-sort_insert P x (y ∷ ys) p q = ground (arith, NoNan-sort_insert P x ys)

    sort_insert-IsSorted :
        (x : F) (xs : List F) → NoNan (x ∷ xs) → IsSorted xs → IsSorted (sort_insert fl.lt x xs)
    unfolding sort_insert
    sort_insert-IsSorted x [] n s = (tt, tt)
    sort_insert-IsSorted x (y ∷ ys) n s = ground (
      arith,
      sort_insert-IsSorted x ys,
      ieee.lt-eq-not-le y x,
      ieee.le_total x y,
      All-le_trans x y ys,
      NoNan-sort_insert (λ z. fl.le y z ≡ true) x ys,
    )

    NoNan-sort_by : (xs : List F) → NoNan xs → NoNan (sort_by fl.lt xs)
    unfolding sort_by
    NoNan-sort_by [] n = tt
    NoNan-sort_by (x ∷ xs) (n, ns) =
        NoNan-sort_insert (λ z. fl.le z z ≡ true) x (sort_by fl.lt xs) n (NoNan-sort_by xs ns)

    pub sort_by-IsSorted : (xs : List F) → NoNan xs → IsSorted (sort_by fl.lt xs)
    unfolding sort_by
    sort_by-IsSorted [] n = tt
    sort_by-IsSorted (x ∷ xs) (n, ns) =
        sort_insert-IsSorted x (sort_by fl.lt xs) (n, NoNan-sort_by xs ns) (sort_by-IsSorted xs ns)
