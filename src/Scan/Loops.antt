-- ===== src/Scan/Loops.antt =====
-- What the loops of Scan/Cells come to, as functions of the values that are not null.
use mathlib.Core.List.{append-nil, append_assoc}
use ematix_probe.Prelude.{
  ℕ, ℤ, ◌+◌, ◌%◌, ◌≤◌, ◌<◌, ◌≡◌, ◌≢◌, ◌↔◌, ◌⊎◌, inl, refl, sym, ap, ◌∙◌, Bool, true, false, not,
  Option, none, some, List, [], ◌∷◌, ◌++◌, arith, if◌then◌else◌, length, count, somes, All,
  Distinct, add_u64, u64_mod, max_ℤ, ◌≤ℤ◌, ≤ℤ_antisymm, int_eq, Eq, HashSet, insert, contains,
}
use ematix_probe.Float.{Float}
use ematix_probe.Scan.Cells.{
  insert_key, merge_max, insert_keys, unique_cells, cardinality_cells, miss_cells, max_ts,
  collect_cells, is_oob, oob_cells,
}

module _ {ℓ} {A : Type ℓ} where
  pub miss_cells-count :
      (fits : A → Bool) (cells : List (Option A)) (n : ℕ)
      → n < u64_mod
      → miss_cells fits cells n ≡ (n + count (λ v. not (fits v)) (somes cells)) % u64_mod
  unfolding miss_cells
  miss_cells-count fits [] n h = omega arith
  miss_cells-count fits (none ∷ cells) n h = miss_cells-count fits cells n h
  miss_cells-count fits (some v ∷ cells) n h =
      ground (arith, miss_cells-count fits cells n, miss_cells-count fits cells (add_u64 n 1))

  pub collect_cells-somes :
      (cells : List (Option A)) (out : List A) → collect_cells cells out ≡ out ++ somes cells
  unfolding collect_cells
  collect_cells-somes [] out = sym (append-nil out)
  collect_cells-somes (none ∷ cells) out = collect_cells-somes cells out
  collect_cells-somes (some v ∷ cells) out =
      collect_cells-somes cells (out ++ v ∷ []) ∙ append_assoc out (v ∷ []) (somes cells)

module _ {F : Type 0} ⦃fl : Float F⦄ where
  pub oob_cells-count :
      (low high : F) (cells : List (Option F)) (n : ℕ)
      → n < u64_mod
      → oob_cells low high cells n ≡ (n + count (is_oob low high) (somes cells)) % u64_mod
  unfolding oob_cells
  oob_cells-count low high [] n h = omega arith
  oob_cells-count low high (none ∷ cells) n h = oob_cells-count low high cells n h
  oob_cells-count low high (some v ∷ cells) n h =
      ground (arith, oob_cells-count low high cells n, oob_cells-count low high cells (add_u64 n 1))

module _ {ℓ} {A : Type ℓ} ⦃e : Eq A⦄ where
  pub unique_cells-insert_keys :
      (cells : List (Option A)) (st : HashSet A × ℕ)
      → unique_cells cells st ≡ insert_keys (somes cells) st
  unfolding unique_cells insert_keys
  unique_cells-insert_keys [] st = refl
  unique_cells-insert_keys (none ∷ cells) st = unique_cells-insert_keys cells st
  unique_cells-insert_keys (some v ∷ cells) st = unique_cells-insert_keys cells (insert_key v st)

  -- the keys that are in the set when they come
  pub repeats : List A → HashSet A → ℕ
  repeats [] seen = 0
  repeats (k ∷ keys) seen = (if contains seen k then 1 else 0) + repeats keys (insert k seen).0

  pub insert_keys-repeats :
      (keys : List A) (seen : HashSet A) (n : ℕ)
      → n < u64_mod
      → (insert_keys keys (seen, n)).1 ≡ (n + repeats keys seen) % u64_mod
  unfolding insert_keys insert_key repeats
  insert_keys-repeats [] seen n h = omega arith
  insert_keys-repeats (k ∷ keys) seen n h =
      ground
        (arith, insert_keys-repeats keys seen (add_u64 n 1), insert_keys-repeats keys (k ∷ seen) n)

  All-fresh :
      (k : A) (seen keys : List A)
      → All (λ y. contains (k ∷ seen) y ≡ false) keys
        ↔ (All (λ y. k ≢ y) keys × All (λ y. contains seen y ≡ false) keys)
  All-fresh k seen [] = ground arith
  All-fresh k seen (y ∷ keys) = ground (arith, All-fresh k seen keys, e.beq_iff y k)

  -- No key repeats exactly when the keys are distinct and none was seen before.
  pub repeats-zero_iff :
      (keys : List A) (seen : HashSet A)
      → (repeats keys seen ≡ 0) ↔ (Distinct keys × All (λ y. contains seen y ≡ false) keys)
  unfolding repeats
  repeats-zero_iff [] seen = ground arith
  repeats-zero_iff (k ∷ keys) seen =
      ground (arith, repeats-zero_iff keys (k ∷ seen), All-fresh k seen keys)

  pub repeats-le-length : (keys : List A) (seen : HashSet A) → repeats keys seen ≤ length keys
  unfolding repeats
  repeats-le-length [] seen = omega arith
  repeats-le-length (k ∷ keys) seen =
      ground (arith, repeats-le-length keys (k ∷ seen), repeats-le-length keys seen)

  All-ne_of_not-contains : (k : A) (seen : List A) → contains seen k ≡ false → All (λ y. k ≢ y) seen
  All-ne_of_not-contains k [] h = tt
  All-ne_of_not-contains k (y ∷ seen) h =
      ground (arith, All-ne_of_not-contains k seen, e.beq_iff k y)

  insert-Distinct : (k : A) (seen : HashSet A) → Distinct seen → Distinct (insert k seen).0
  insert-Distinct k seen d = ground (arith, All-ne_of_not-contains k seen)

  pub cardinality_cells-Distinct :
      (cells : List (Option A)) (seen : HashSet A)
      → Distinct seen
      → Distinct (cardinality_cells cells seen)
  unfolding cardinality_cells
  cardinality_cells-Distinct [] seen d = d
  cardinality_cells-Distinct (none ∷ cells) seen d = cardinality_cells-Distinct cells seen d
  cardinality_cells-Distinct (some v ∷ cells) seen d =
      cardinality_cells-Distinct cells (insert v seen).0 (insert-Distinct v seen d)

  -- The set holds what it held and the values of the cells.
  pub contains-cardinality_cells :
      (cells : List (Option A)) (seen : HashSet A) (a : A)
      → contains (cardinality_cells cells seen) a
        ≡ (if contains (somes cells) a then true else contains seen a)
  unfolding cardinality_cells
  contains-cardinality_cells [] seen a = refl
  contains-cardinality_cells (none ∷ cells) seen a = contains-cardinality_cells cells seen a
  contains-cardinality_cells (some v ∷ cells) seen a =
      ground (arith, contains-cardinality_cells cells (insert v seen).0 a, e.beq_iff a v)

-- `m` is a greatest value of the list.
abbrev pub IsMax : Option ℤ → List ℤ → Type 0
IsMax none values = values ≡ []
IsMax (some m) values = (contains values m ≡ true) × All (λ v. v ≤ℤ m) values

max_ts-some :
    (cells : List (Option ℤ)) (m : ℤ)
    → (r : ℤ) × (max_ts cells (some m) ≡ some r)
      × (m ≤ℤ r)
      × All (λ v. v ≤ℤ r) (somes cells)
      × ((r ≡ m) ⊎ (contains (somes cells) r ≡ true))
unfolding max_ts
max_ts-some [] m = (m, refl, omega arith, tt, inl refl)
max_ts-some (none ∷ cells) m = max_ts-some cells m
max_ts-some (some v ∷ cells) m =
    let (r, found, up, all, origin) = max_ts-some cells (max_ℤ m v) in
    (r, found, ground arith, (ground arith, all), ground (arith, int_eq.beq_iff r v))

-- `max_ts` finds a greatest value, and nothing only where there is no value.
pub max_ts-IsMax : (cells : List (Option ℤ)) → IsMax (max_ts cells none) (somes cells)
unfolding max_ts
max_ts-IsMax [] = refl
max_ts-IsMax (none ∷ cells) = max_ts-IsMax cells
max_ts-IsMax (some v ∷ cells) =
    let (r, found, up, all, origin) = max_ts-some cells v in
    rw found (ground (arith, int_eq.beq_iff r v), (up, all))

pub max_ts-append :
    (xs ys : List (Option ℤ)) (m : Option ℤ) → max_ts (xs ++ ys) m ≡ max_ts ys (max_ts xs m)
unfolding max_ts
max_ts-append [] ys m = refl
max_ts-append (none ∷ xs) ys m = max_ts-append xs ys m
max_ts-append (some v ∷ xs) ys none = max_ts-append xs ys (some v)
max_ts-append (some v ∷ xs) ys (some cur) = max_ts-append xs ys (some (max_ℤ cur v))

max_ℤ_assoc : (a b c : ℤ) → max_ℤ a (max_ℤ b c) ≡ max_ℤ (max_ℤ a b) c
max_ℤ_assoc a b c = ground (arith, ≤ℤ_antisymm a c)

merge_none : (m : Option ℤ) → merge_max none m ≡ m
merge_none none = refl
merge_none (some m) = refl

merge_max_assoc :
    (m v : ℤ) (o : Option ℤ)
    → merge_max (some m) (merge_max (some v) o) ≡ merge_max (some (max_ℤ m v)) o
merge_max_assoc m v none = refl
merge_max_assoc m v (some w) = ap some (max_ℤ_assoc m v w)

merge_some :
    (cells : List (Option ℤ)) (m : ℤ)
    → merge_max (some m) (max_ts cells none) ≡ max_ts cells (some m)
unfolding max_ts
merge_some [] m = refl
merge_some (none ∷ cells) m = merge_some cells m
merge_some (some v ∷ cells) m =
    rw (← merge_some cells v, ← merge_some cells (max_ℤ m v))
      (merge_max_assoc m v (max_ts cells none))

-- The maximum of a batch merged into the maximum so far is one pass over both.
pub merge_max-max_ts :
    (cells : List (Option ℤ)) (m : Option ℤ) → merge_max m (max_ts cells none) ≡ max_ts cells m
unfolding max_ts
merge_max-max_ts cells none = merge_none (max_ts cells none)
merge_max-max_ts cells (some m) = merge_some cells m
