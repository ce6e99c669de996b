-- ===== src/Scan/Arms/Values.antt =====
-- The arms of `Acc::update` on texts and times: `Regex`, `Enum` and `Freshness`.
use ematix_probe.Prelude.{
  ℕ, ℤ, refl, ap, String, some, HashSet, int_eq, string_eq, list_eq, contains,
}
use ematix_probe.Float.{Float}
use ematix_probe.Crates.{TimeUnit, Crates}
use ematix_probe.Scan.Acc.{Acc, part_eq}
use ematix_probe.Scan.Cells.{miss_cells, max_ts}
use ematix_probe.Scan.Loops.{max_ts-append, merge_max-max_ts}
use ematix_probe.Scan.Update.{string_column, timestamp_column, update}
use ematix_probe.Scan.Run.{IsArm}
use ematix_probe.Scan.Arms.Appends.{miss_cells-append}
use ematix_probe.Scan.Arms.Numbers.{Always}

module _ {F : Type 0} (c : Crates F) ⦃fl : Float F⦄ where
  open c use {RecordBatch, Regex, column, null_count, num_rows, data_type, kind, is_match}

  module _ (name : String) (i : ℕ) where
    pub regex-IsArm :
        (re : Regex) (pattern' : String)
        → IsArm
            (update c)
            (λ n. Acc.regex name i re pattern' n)
            (string_column c i)
            (miss_cells (is_match re))
            (Always)
    unfolding update miss_cells
    regex-IsArm re pattern' = record {
      kept = λ xs s p. tt;
      step-nil = λ s p. refl;
      step-append = λ xs ys s p. miss_cells-append _ xs ys s;
      arm = λ b xs s p h. rw h;
    }

    pub enum-IsArm :
        (allowed : HashSet String) (len : ℕ)
        → IsArm
            (update c)
            (λ n. Acc.enum name i allowed len n)
            (string_column c i)
            (miss_cells (contains allowed))
            (Always)
    unfolding update miss_cells
    enum-IsArm allowed len = record {
      kept = λ xs s p. tt;
      step-nil = λ s p. refl;
      step-append = λ xs ys s p. miss_cells-append _ xs ys s;
      arm = λ b xs s p h. rw h;
    }

    pub freshness-IsArm :
        (unit : TimeUnit) (within : ℤ)
        → IsArm
            (update c)
            (λ m. Acc.freshness name i unit within m)
            (timestamp_column c unit i)
            max_ts
            (Always)
    unfolding update max_ts
    freshness-IsArm unit within = record {
      kept = λ xs s p. tt;
      step-nil = λ s p. refl;
      step-append = λ xs ys s p. max_ts-append xs ys s;
      arm = λ b xs s p h.
          rw h (ap (λ m. some (Acc.freshness name i unit within m)) (merge_max-max_ts xs s));
    }
