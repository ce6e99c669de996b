-- ===== src/Scan/Arms/Keys.antt =====
-- The arms of `Acc::update` that keep a set, `Unique`, `UniqueGroup` and `CardinalityBetween`.
use ematix_probe.Prelude.{ℕ, ℤ, refl, String, Option, List, int_eq, string_eq, list_eq}
use ematix_probe.Float.{Float}
use ematix_probe.Crates.{Crates}
use ematix_probe.Scan.Acc.{Acc, part_eq}
use ematix_probe.Scan.Cells.{insert_keys, unique_cells, cardinality_cells}
use ematix_probe.Scan.Update.{int64_column, string_column, row_keys, update}
use ematix_probe.Scan.Run.{IsArm}
use ematix_probe.Scan.Arms.Appends.{
  unique_cells-append, insert_keys-append, cardinality_cells-append,
}
use ematix_probe.Scan.Arms.Numbers.{Always}

module _ {F : Type 0} (c : Crates F) ⦃fl : Float F⦄ where
  open c use {RecordBatch, Regex, column, null_count, num_rows, data_type, kind, is_match}

  module _ (name : String) (i : ℕ) where
    pub unique_i64-IsArm :
        IsArm
          (update c)
          (λ st. Acc.unique_i64 name i st.0 st.1)
          (int64_column c i)
          unique_cells
          (Always)
    unfolding update unique_cells
    unique_i64-IsArm = record {
      kept = λ xs s p. tt;
      step-nil = λ s p. refl;
      step-append = λ xs ys s p. unique_cells-append xs ys s;
      arm = λ b xs s p h. rw h;
    }

    pub unique_str-IsArm :
        IsArm
          (update c)
          (λ st. Acc.unique_str name i st.0 st.1)
          (string_column c i)
          unique_cells
          (Always)
    unfolding update unique_cells
    unique_str-IsArm = record {
      kept = λ xs s p. tt;
      step-nil = λ s p. refl;
      step-append = λ xs ys s p. unique_cells-append xs ys s;
      arm = λ b xs s p h. rw h;
    }

    pub cardinality_i64-IsArm :
        (low high : Option ℤ)
        → IsArm
            (update c)
            (λ seen. Acc.cardinality_i64 name i low high seen)
            (int64_column c i)
            cardinality_cells
            (Always)
    unfolding update cardinality_cells
    cardinality_i64-IsArm low high = record {
      kept = λ xs s p. tt;
      step-nil = λ s p. refl;
      step-append = λ xs ys s p. cardinality_cells-append xs ys s;
      arm = λ b xs s p h. rw h;
    }

    pub cardinality_str-IsArm :
        (low high : Option ℤ)
        → IsArm
            (update c)
            (λ seen. Acc.cardinality_str name i low high seen)
            (string_column c i)
            cardinality_cells
            (Always)
    unfolding update cardinality_cells
    cardinality_str-IsArm low high = record {
      kept = λ xs s p. tt;
      step-nil = λ s p. refl;
      step-append = λ xs ys s p. cardinality_cells-append xs ys s;
      arm = λ b xs s p h. rw h;
    }

  pub unique_composite-IsArm :
      (names : List String) (idxs : List ℕ)
      → IsArm
          (update c)
          (λ st. Acc.unique_composite names idxs st.0 st.1)
          (row_keys c idxs)
          insert_keys
          (Always)
  unfolding update insert_keys
  unique_composite-IsArm names idxs = record {
    kept = λ xs s p. tt;
    step-nil = λ s p. refl;
    step-append = λ xs ys s p. insert_keys-append xs ys s;
    arm = λ b xs s p h. rw h;
  }
