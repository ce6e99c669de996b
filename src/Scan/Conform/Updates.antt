-- ===== src/Scan/Conform/Updates.antt =====
-- `Acc::update` on a batch of the schema.
use ematix_probe.Prelude.{
  ℕ, ◌+◌, ◌≤◌, ◌≡◌, inl, inr, refl, String, true, Option, some, List, [], ◌∷◌, arith, length,
  add_u64,
}
use ematix_probe.Message.{Message}
use ematix_probe.Float.{Float, in_unit}
use ematix_probe.Data.{Verdict}
use ematix_probe.Crates.{Crates}
use ematix_probe.Crates.Laws.{IsArrow}
use ematix_probe.Scan.Acc.{Acc}
use ematix_probe.Scan.Cells.{oob_cells, collect_cells}
use ematix_probe.Scan.Update.{
  ◌>>=◌, cells, between_unsupported, collect_unsupported, update_between, count_oob,
  update_percentile, collect_numeric_into, update,
}
use ematix_probe.Scan.Arms.{
  null_column, number_column, not_null-IsArm, unique_i64-IsArm, unique_str-IsArm,
  unique_composite-IsArm, regex-IsArm, enum-IsArm, row_count-IsArm, freshness-IsArm,
  cardinality_i64-IsArm, cardinality_str-IsArm,
}
use ematix_probe.Scan.Conform.{Fits, HasField}
use ematix_probe.Scan.Conform.Reads.{
  int64_column-some, string_column-some, timestamp_column-some, row_keys-some, column-HasField,
  typed_values-cases, length-collect_cells-le, length-cells_from,
}

module _ {F : Type 0} (c : Crates F) (law : IsArrow c) ⦃fl : Float F⦄ where
  open c use {RecordBatch, Regex, num_rows}

  null_column-some :
      (b : RecordBatch) (i : ℕ)
      → HasField c (law.batch_schema b) i
      → (ns : List ℕ) × (null_column c i b ≡ some ns)
  unfolding null_column
  null_column-some b i h =
      let (a, read, long) = column-HasField c law b i h in
      (c.null_count a ∷ [], rw (read, ◌>>=◌) refl)

module _ {F : Type 0} (c : Crates F) (law : IsArrow c) ⦃fl : Float F⦄
    (N N' : ℕ → List F → Type 0) where
  open c use {RecordBatch, Regex, num_rows}

  -- What a batch adds to the values of a column keeps them in order for the batches after it.
  abbrev pub Steps : RecordBatch → Type 0
  Steps b =
      (i : ℕ) (vs : List F) (xs : List (Option F))
      → number_column c i b ≡ some xs
      → N i vs
      → N' i (collect_cells xs vs)

  -- The update does not panic, and its result fits.
  abbrev Updates : RecordBatch → ℕ → Acc F Regex → Type 0
  Updates b n acc =
      (acc' : Acc F Regex) × (update c acc b ≡ some acc')
      × Fits c N' (law.batch_schema b) (n + num_rows b) acc'

  schema_match-Updates :
      (b : RecordBatch) (n : ℕ) (v : Verdict) (m : Option (Message F))
      → Updates b n (Acc.schema_match v m)
  unfolding update
  schema_match-Updates b n v m = (Acc.schema_match v m, refl, tt)

  error-Updates : (b : RecordBatch) (n : ℕ) (m : Message F) → Updates b n (Acc.error m)
  unfolding update
  error-Updates b n m = (Acc.error m, refl, tt)

  between-Updates :
      (b : RecordBatch) (n : ℕ) (name : String) (i : ℕ) (low high : F) (oob : ℕ)
      → HasField c (law.batch_schema b) i
      → Updates b n (Acc.between name i low high oob)
  unfolding update update_between count_oob
  between-Updates b n name i low high oob h =
      let (a, read, long) = column-HasField c law b i h in
      elim (typed_values-cases c law b a) [
        | inl e ↦
            (Acc.error (between_unsupported c (c.data_type a)), rw (read, ◌>>=◌, e, ◌>>=◌) refl, tt)
        | inr (v, e) ↦ (
          Acc.between name i low high (add_u64 oob (oob_cells low high (cells c a v) 0)),
          rw (read, ◌>>=◌, e, ◌>>=◌) refl,
          h,
        )
      ]

  percentile-Updates :
      (b : RecordBatch) (n : ℕ) (name : String) (i : ℕ) (p low high : F) (vs : List F)
      → HasField c (law.batch_schema b) i
      → in_unit p ≡ true
      → length vs ≤ n
      → N i vs
      → Steps b
      → Updates b n (Acc.percentile_between name i p low high vs)
  unfolding update update_percentile collect_numeric_into number_column
  percentile-Updates b n name i p low high vs h u short held step =
      let (a, read, long) = column-HasField c law b i h in
      elim (typed_values-cases c law b a) [
        | inl e ↦
            (Acc.error (collect_unsupported c (c.data_type a)), rw (read, ◌>>=◌, e, ◌>>=◌) refl, tt)
        | inr (v, e) ↦ (
          Acc.percentile_between name i p low high (collect_cells (cells c a v) vs),
          rw (read, ◌>>=◌, e, ◌>>=◌) refl,
          (
            h,
            u,
            omega (
              arith,
              length-collect_cells-le (cells c a v) vs,
              length-cells_from (c.len a) 0 (c.is_null a) v,
            ),
            step i vs (cells c a v) (rw (read, ◌>>=◌, e, ◌>>=◌) refl) held,
          ),
        )
      ]

  -- A batch of the schema that the accumulator fits does not make `update` panic, and what it
  -- leaves fits too.
  pub update-Fits :
      (b : RecordBatch) (n : ℕ) (acc : Acc F Regex)
      → Fits c N (law.batch_schema b) n acc
      → Steps b
      → Updates b n acc
  update-Fits b n (Acc.not_null name i nulls) h step =
      let (ns, e) = null_column-some c law b i h in
      (_, (not_null-IsArm c name i).arm b ns nulls tt e, h)
  update-Fits b n (Acc.unique_i64 name i seen dup) h step =
      let (cs, e) = int64_column-some c law b i h in
      (_, (unique_i64-IsArm c name i).arm b cs (seen, dup) tt e, h)
  update-Fits b n (Acc.unique_str name i seen dup) h step =
      let (cs, e) = string_column-some c law b i h in
      (_, (unique_str-IsArm c name i).arm b cs (seen, dup) tt e, h)
  update-Fits b n (Acc.unique_composite names is seen dup) h step =
      let (keys, e) = row_keys-some c law b is h in
      (_, (unique_composite-IsArm c names is).arm b keys (seen, dup) tt e, h)
  update-Fits b n (Acc.between name i low high oob) h step =
      between-Updates b n name i low high oob h
  update-Fits b n (Acc.regex name i re pattern' misses) h step =
      let (cs, e) = string_column-some c law b i h in
      (_, (regex-IsArm c name i re pattern').arm b cs misses tt e, h)
  update-Fits b n (Acc.enum name i allowed len misses) h step =
      let (cs, e) = string_column-some c law b i h in
      (_, (enum-IsArm c name i allowed len).arm b cs misses tt e, h)
  update-Fits b n (Acc.row_count low high count) h step =
      (_, (row_count-IsArm c low high).arm b (num_rows b ∷ []) count tt refl, tt)
  update-Fits b n (Acc.freshness name i unit within max) h step =
      let (cs, e) = timestamp_column-some c law b unit i h in
      (_, (freshness-IsArm c name i unit within).arm b cs max tt e, h)
  update-Fits b n (Acc.percentile_between name i p low high vs) (h, u, short, held) step =
      percentile-Updates b n name i p low high vs h u short held step
  update-Fits b n (Acc.cardinality_i64 name i low high seen) h step =
      let (cs, e) = int64_column-some c law b i h in
      (_, (cardinality_i64-IsArm c name i low high).arm b cs seen tt e, h)
  update-Fits b n (Acc.cardinality_str name i low high seen) h step =
      let (cs, e) = string_column-some c law b i h in
      (_, (cardinality_str-IsArm c name i low high).arm b cs seen tt e, h)
  update-Fits b n (Acc.schema_match v m) h step = schema_match-Updates b n v m
  update-Fits b n (Acc.error m) h step = error-Updates b n m
