-- ===== src/Scan/Arms/Numbers.antt =====
-- The arms of `Acc::update` on numbers: null counts, `Between`, `PercentileBetween` and `RowCount`.
use ematix_probe.Prelude.{
  ℕ, ℤ, ◌+◌, ◌%◌, ◌<◌, ◌≡◌, refl, ap, String, Option, some, List, [], ◌∷◌, arith, somes, count,
  count-append, somes-append, u64_mod, int_eq, string_eq, list_eq, Option-cases, inl, inr,
}
use ematix_probe.Float.{Float}
use ematix_probe.Crates.{Crates}
use ematix_probe.Scan.Acc.{Acc, part_eq}
use ematix_probe.Scan.Cells.{collect_cells, is_oob}
use ematix_probe.Scan.Loops.{oob_cells-count}
use ematix_probe.Scan.Update.{
  ◌>>=◌, cells, update_not_null, typed_values, count_oob, collect_numeric_into, update_between,
  update_percentile, update,
}
use ematix_probe.Scan.Run.{IsArm}
use ematix_probe.Scan.Arms.Appends.{
  add_nulls, add_rows, add_nulls-append, add_rows-append, collect_cells-append,
}

-- An arm without a condition on its state.
abbrev pub Always : {St : Type 0} → St → Type 0
Always s = Unit

module _ {F : Type 0} (c : Crates F) ⦃fl : Float F⦄ where
  open c use {RecordBatch, Regex, column, null_count, num_rows, data_type, kind, is_match}

  -- the cells of a numeric column, `as f64`
  unfoldable pub number_column : ℕ → RecordBatch → Option (List (Option F))
  number_column i b = do
    arr ← column b i
    typed ← typed_values c (kind (data_type arr)) arr
    value ← typed
    some (cells c arr value)

  -- the null count of a column
  unfoldable pub null_column : ℕ → RecordBatch → Option (List ℕ)
  null_column i b = do arr ← column b i; some (null_count arr ∷ [])

  number_column-cells :
      (i : ℕ) (b : RecordBatch) {xs : List (Option F)}
      → number_column i b ≡ some xs
      → (arr : c.Array) × (value : ℕ → F) × (column b i ≡ some arr)
        × (typed_values c (kind (data_type arr)) arr ≡ some (some value))
        × (cells c arr value ≡ xs)
  unfolding number_column
  number_column-cells i b h = elim (Option-cases (column b i)) [
    | inl e ↦ ground arith
    | inr (arr, e) ↦ elim (Option-cases (typed_values c (kind (data_type arr)) arr)) [
      | inl f ↦ ground arith
      | inr (typed, f) ↦ elim (Option-cases typed) [
        | inl g ↦ ground arith
        | inr (value, g) ↦ (arr, value, e, ground arith, ground arith)
      ]
    ]
  ]

  module _ (name : String) (i : ℕ) where
    pub not_null-IsArm :
        IsArm (update c) (λ n. Acc.not_null name i n) (null_column i) add_nulls (Always)
    unfolding update update_not_null null_column
    not_null-IsArm = record {
      kept = λ xs s p. tt;
      step-nil = λ s p. refl;
      step-append = λ xs ys s p. add_nulls-append xs ys s;
      arm = λ b xs s p h. ground arith;
    }

    pub between-IsArm :
        (low high : F)
        → IsArm
            (update c)
            (λ n. Acc.between name i low high n)
            (number_column i)
            (λ xs n. (n + count (is_oob low high) (somes xs)) % u64_mod)
            (λ n. n < u64_mod)
    unfolding update update_between count_oob number_column
    between-IsArm low high = record {
      kept = λ xs s p. omega arith;
      step-nil = λ s p. omega arith;
      step-append = λ xs ys s p. rw (somes-append, count-append) (omega arith);
      arm = λ b xs s p h.
          let (arr, value, e, f, g) = number_column-cells i b h in
          rw (e, ◌>>=◌, f, ◌>>=◌, g, oob_cells-count low high xs 0 (omega arith))
            (ap (λ n. some (Acc.between name i low high n)) (omega arith));
    }

    pub percentile-IsArm :
        (p low high : F)
        → IsArm
            (update c)
            (λ vs. Acc.percentile_between name i p low high vs)
            (number_column i)
            collect_cells
            (Always)
    unfolding update update_percentile collect_numeric_into number_column collect_cells
    percentile-IsArm p low high = record {
      kept = λ xs s q. tt;
      step-nil = λ s q. refl;
      step-append = λ xs ys s q. collect_cells-append xs ys s;
      arm = λ b xs s q h.
          let (arr, value, e, f, g) = number_column-cells i b h in rw (e, ◌>>=◌, f, ◌>>=◌, g) refl;
    }

  pub row_count-IsArm :
      (low high : Option ℤ)
      → IsArm
          (update c)
          (λ n. Acc.row_count low high n)
          (λ b. some (num_rows b ∷ []))
          add_rows
          (Always)
  unfolding update
  row_count-IsArm low high = record {
    kept = λ xs s p. tt;
    step-nil = λ s p. refl;
    step-append = λ xs ys s p. add_rows-append xs ys s;
    arm = λ b xs s p h.
        let e : num_rows b ∷ [] ≡ xs = cc in
        ap (λ ns. some (Acc.row_count low high (add_rows ns s))) e;
  }
