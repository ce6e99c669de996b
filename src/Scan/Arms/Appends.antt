-- ===== src/Scan/Arms/Appends.antt =====
-- The loops over cells, over two batches one after the other.
use ematix_probe.Prelude.{
  ℕ, ℤ, ◌≡◌, refl, Option, none, some, List, [], ◌∷◌, ◌++◌, add_u64, add_i64, as_i64, Eq, HashSet,
  int_eq, string_eq, list_eq, Bool,
}
use ematix_probe.Scan.Acc.{part_eq}
use ematix_probe.Scan.Cells.{
  insert_key, insert_keys, unique_cells, cardinality_cells, miss_cells, collect_cells,
}

module _ {A : Type 0} ⦃e : Eq A⦄ where
  pub unique_cells-append :
      (xs ys : List (Option A)) (st : HashSet A × ℕ)
      → unique_cells (xs ++ ys) st ≡ unique_cells ys (unique_cells xs st)
  unfolding unique_cells
  unique_cells-append [] ys st = refl
  unique_cells-append (none ∷ xs) ys st = unique_cells-append xs ys st
  unique_cells-append (some v ∷ xs) ys st = unique_cells-append xs ys (insert_key v st)

  pub insert_keys-append :
      (xs ys : List A) (st : HashSet A × ℕ)
      → insert_keys (xs ++ ys) st ≡ insert_keys ys (insert_keys xs st)
  unfolding insert_keys
  insert_keys-append [] ys st = refl
  insert_keys-append (v ∷ xs) ys st = insert_keys-append xs ys (insert_key v st)

  pub cardinality_cells-append :
      (xs ys : List (Option A)) (seen : HashSet A)
      → cardinality_cells (xs ++ ys) seen ≡ cardinality_cells ys (cardinality_cells xs seen)
  unfolding cardinality_cells
  cardinality_cells-append [] ys seen = refl
  cardinality_cells-append (none ∷ xs) ys seen = cardinality_cells-append xs ys seen
  cardinality_cells-append (some v ∷ xs) ys seen = cardinality_cells-append xs ys _

module _ {A : Type 0} where
  pub miss_cells-append :
      (fits : A → Bool) (xs ys : List (Option A)) (n : ℕ)
      → miss_cells fits (xs ++ ys) n ≡ miss_cells fits ys (miss_cells fits xs n)
  unfolding miss_cells
  miss_cells-append fits [] ys n = refl
  miss_cells-append fits (none ∷ xs) ys n = miss_cells-append fits xs ys n
  miss_cells-append fits (some v ∷ xs) ys n = miss_cells-append fits xs ys _

  pub collect_cells-append :
      (xs ys : List (Option A)) (out : List A)
      → collect_cells (xs ++ ys) out ≡ collect_cells ys (collect_cells xs out)
  unfolding collect_cells
  collect_cells-append [] ys out = refl
  collect_cells-append (none ∷ xs) ys out = collect_cells-append xs ys out
  collect_cells-append (some v ∷ xs) ys out = collect_cells-append xs ys (out ++ v ∷ [])

-- The null counts of the batches added up, and their row counts.
abbrev pub add_nulls : List ℕ → ℕ → ℕ
add_nulls [] n = n
add_nulls (k ∷ ks) n = add_nulls ks (add_u64 n k)

abbrev pub add_rows : List ℕ → ℤ → ℤ
add_rows [] n = n
add_rows (k ∷ ks) n = add_rows ks (add_i64 n (as_i64 k))

pub add_nulls-append :
    (xs ys : List ℕ) (n : ℕ) → add_nulls (xs ++ ys) n ≡ add_nulls ys (add_nulls xs n)
add_nulls-append [] ys n = refl
add_nulls-append (k ∷ xs) ys n = add_nulls-append xs ys (add_u64 n k)

pub add_rows-append : (xs ys : List ℕ) (n : ℤ) → add_rows (xs ++ ys) n ≡ add_rows ys (add_rows xs n)
add_rows-append [] ys n = refl
add_rows-append (k ∷ xs) ys n = add_rows-append xs ys _
