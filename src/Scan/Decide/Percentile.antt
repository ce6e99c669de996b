-- ===== src/Scan/Decide/Percentile.antt =====
-- The `PercentileBetween` assertion.
use ematix_probe.Prelude.{
  ℕ, zero, suc, ◌<◌, ◌^◌, ◌≡◌, ◌≢◌, refl, String, Bool, true, false, not, any, Option, some, List,
  [], ◌∷◌, arith, length, count, somes, get_elem?,
}
use ematix_probe.Prelude.Sort.{sort_by}
use ematix_probe.Float.{Float, IsIeee, in_unit, of_ℕ, rank}
use ematix_probe.Data.{Assertion, AssertionResult}
use ematix_probe.Crates.{Crates}
use ematix_probe.Scan.Build.{build, build_percentile_between, column_index, is_supported_numeric}
use ematix_probe.Scan.Finalize.{finalize, sort_floats, finalize_percentile, judge_percentile}
use ematix_probe.Scan.Loops.{collect_cells-somes}
use ematix_probe.Scan.Sorting.{
  length-sort_by, count-sort_by, get_elem?-of_lt, NoNan, IsSorted, sort_by-IsSorted,
}
use ematix_probe.Scan.Arms.{number_column, percentile-IsArm}
use ematix_probe.Scan.Run.{gather, run-step, outcome_of}
use ematix_probe.Scan.Decide.{Decides, outcome_of-run}

module _ {F : Type 0} ⦃fl : Float F⦄ (ieee : IsIeee F) where
  -- The nearest rank among `n` values is an index of a list of `n` values.
  pub rank-lt : (p : F) (n : ℕ) → in_unit p ≡ true → 0 < n → n < 2 ^ 53 → rank p n < n
  unfolding rank
  rank-lt p zero u pos' h = absurd (omega arith)
  rank-lt p (suc n) u pos' h =
      let below = ieee.mul-le p n (ground arith) (ground arith) in
      rw (rank, ieee.sub_one n (omega arith))
        (omega (arith, ieee.to_u64-floor-le (fl.mul p (of_ℕ n)) n (omega arith) below))

  -- An ascending rearrangement of the values.
  abbrev pub IsArranged : List F → List F → Type 0
  IsArranged sorted values = IsSorted sorted × ((q : F → Bool) → count q sorted ≡ count q values)

  judge_percentile-Decides :
      (i : ℕ) (name : String) (p low high v : F)
      → Decides i
          (judge_percentile i name p low high v)
          ((fl.le low v ≡ true) × (fl.le v high ≡ true))
  unfolding judge_percentile
  judge_percentile-Decides i name p low high v = ground arith

  any-NoNan : (xs : List F) → NoNan xs → any (λ x. not (fl.le x x)) xs ≡ false
  any-NoNan [] n = refl
  any-NoNan (x ∷ xs) (n, ns) = ground (arith, any-NoNan xs ns)

  -- Without a NaN the sort does not panic.
  sort_floats-NoNan : (xs : List F) → NoNan xs → sort_floats xs ≡ some (sort_by fl.lt xs)
  unfolding sort_floats
  sort_floats-NoNan xs n = rw (any-NoNan xs n) refl

  finalize_percentile-judge :
      (i : ℕ) (name : String) (p low high : F) (values : List F) (v : F)
      → values ≢ []
      → NoNan values
      → get_elem? (sort_by fl.lt values) (rank p (length (sort_by fl.lt values))) ≡ some v
      → finalize_percentile i name p low high values ≡ some (judge_percentile i name p low high v)
  unfolding finalize_percentile
  finalize_percentile-judge i name p low high [] v ne n at = absurd (ne refl)
  finalize_percentile-judge i name p low high (x ∷ xs) v ne n at =
      rw (sort_floats-NoNan (x ∷ xs) n, finalize_percentile, at) refl

  -- Without a NaN the percentile arm does not panic: neither the sort nor the index.
  pub finalize_percentile-some :
      (i : ℕ) (name : String) (p low high : F) (values : List F)
      → in_unit p ≡ true
      → length values < 2 ^ 53
      → NoNan values
      → (r : AssertionResult F) × (finalize_percentile i name p low high values ≡ some r)
  unfolding finalize_percentile
  finalize_percentile-some i name p low high [] u h n = (_, refl)
  finalize_percentile-some i name p low high (x ∷ xs) u h n =
      let values : List F = x ∷ xs in
      let sorted : List F = sort_by fl.lt values in
      let same : length sorted ≡ length values = length-sort_by fl.lt values in
      let (v, at) =
        get_elem?-of_lt sorted (rank p (length sorted))
          (rw same (rank-lt p (length values) u (omega arith) h)) in
      (
        judge_percentile i name p low high v,
        rw (sort_floats-NoNan values n, finalize_percentile, at) refl,
      )

  module _ (c : Crates F) where
    open c use {Schema, RecordBatch, kind, index_of, field_type}

    -- For floats that obey the IEEE 754 facts of IsIeee: `PercentileBetween` with a finite `p`
    -- from 0 to 1, on a numeric column that the schema has, where the reads of all batches succeed
    -- with at least one non-null value (one is enough), fewer than 2^53 and no NaN among them, takes
    -- the value `v` at the nearest rank of the values in ascending order, without a panic of the
    -- sort or of the index, passes exactly when `v` is from `low` to `high`, and fails otherwise.
    pub percentile-decides :
        (clock : Option ℕ) (i : ℕ) (name : String) (p low high : F) (k : ℕ) (schema : Schema)
        (batches : List RecordBatch) (cells : List (Option F))
        → fl.is_finite p ≡ true
        → in_unit p ≡ true
        → index_of schema name ≡ some k
        → is_supported_numeric (kind (field_type schema k)) ≡ true
        → gather (number_column c k) batches ≡ some cells
        → somes cells ≢ []
        → NoNan (somes cells)
        → length (somes cells) < 2 ^ 53
        → (sorted : List F) × (v : F) × (r : AssertionResult F) × IsArranged sorted (somes cells)
          × (get_elem? sorted (rank p (length (somes cells))) ≡ some v)
          × (outcome_of c clock i (Assertion.percentile_between name p low high) schema batches
              ≡ some r)
          × Decides i r ((fl.le low v ≡ true) × (fl.le v high ≡ true))
    unfolding build build_percentile_between column_index finalize
    percentile-decides clock i name p low high k schema batches cells fin u found typed read ne n
          h =
        let values : List F = somes cells in
        let sorted : List F = sort_by fl.lt values in
        let same : length sorted ≡ length values = length-sort_by fl.lt values in
        let (v, at) =
          get_elem?-of_lt sorted (rank p (length values))
            (rw same (rank-lt p (length values) u (positive values ne) h)) in
        (
          sorted,
          v,
          judge_percentile i name p low high v,
          (sort_by-IsSorted ieee values n, λ q. count-sort_by fl.lt q values),
          at,
          outcome_of-run c clock i (Assertion.percentile_between name p low high) schema batches
              (ground arith)
              (run-step c (percentile-IsArm c name k p low high) batches cells [] tt read)
              (rw (collect_cells-somes cells [])
                (finalize_percentile-judge i name p low high values v ne n (rw same at))),
          judge_percentile-Decides i name p low high v,
        )
      where
        positive : (vs : List F) → vs ≢ [] → 0 < length vs
        positive [] e = absurd (e refl)
        positive (w ∷ vs) e = omega arith
