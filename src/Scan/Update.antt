-- ===== src/Scan/Update.antt =====
-- `Acc::update` of engine/scan.rs: one function for each arm of its match. `none` is a panic: of
-- `batch.column` out of range, or of the `expect` and `unwrap` after a downcast.
use ematix_probe.Prelude.{
  ℕ, zero, suc, ℤ, String, Option, none, some, List, [], ◌∷◌, if◌then◌else◌, add_u64, add_i64,
  as_i64, contains, int_eq, string_eq, list_eq,
}
use ematix_probe.Message.{Message, Piece, lit}
use ematix_probe.Float.{Float}
use ematix_probe.Crates.{Result, ok, err, IntType, TimeUnit, Kind, Crates}
use ematix_probe.Scan.Acc.{Acc, CompositeKeyPart, part_eq}
use ematix_probe.Scan.Cells.{
  cells_from, insert_keys, unique_cells, cardinality_cells, miss_cells, max_ts, collect_cells,
  oob_cells, merge_max,
}

-- `none` is a panic.
infixl 5 ◌>>=◌
abbrev pub ◌>>=◌ {ℓ κ} : {A : Type ℓ} {B : Type κ} → Option A → (A → Option B) → Option B
none >>= k = none
some a >>= k = k a

module _ {F : Type 0} (c : Crates F) where
  open c use {
    DataType, Array, RecordBatch, Regex, kind, debug_type, num_rows, column, data_type, len,
    null_count, is_null, as_ints, as_f32, as_f64, as_strings, as_timestamps, is_match,
  }

  -- `for i in 0..arr.len()` with the cells of `arr`, read through `value`
  abbrev pub cells {ℓ} : {A : Type ℓ} → Array → (ℕ → A) → List (Option A)
  cells arr value = cells_from (len arr) 0 (is_null arr) value

  -- the cells of a column that has to be an `Int64Array`, a `StringArray` or a timestamp array
  unfoldable pub int64_column : ℕ → RecordBatch → Option (List (Option ℤ))
  int64_column col_idx batch = do
    arr ← column batch col_idx
    value ← as_ints IntType.int64 arr
    some (cells arr value)

  unfoldable pub string_column : ℕ → RecordBatch → Option (List (Option String))
  string_column col_idx batch = do
    arr ← column batch col_idx
    value ← as_strings arr
    some (cells arr value)

  unfoldable pub timestamp_column : TimeUnit → ℕ → RecordBatch → Option (List (Option ℤ))
  timestamp_column unit col_idx batch = do
    arr ← column batch col_idx
    value ← as_timestamps unit arr
    some (cells arr value)

  unfoldable pub update_not_null : ℕ → ℕ → RecordBatch → Option ℕ
  update_not_null col_idx nulls batch = do
    arr ← column batch col_idx
    some (add_u64 nulls (null_count arr))

  -- `enum KeyCol`: a key column with its downcast array
  pub data KeyCol : Type 0 where
    i64 : Array → (ℕ → ℤ) → KeyCol
    str : Array → (ℕ → String) → KeyCol

  unfoldable pub downcast_key : Array → Kind → Option KeyCol
  downcast_key arr (Kind.int IntType.int64) = do
    value ← as_ints IntType.int64 arr
    some (KeyCol.i64 arr value)
  downcast_key arr _ = do value ← as_strings arr; some (KeyCol.str arr value)

  unfoldable pub key_columns : List ℕ → RecordBatch → Option (List KeyCol)
  unfolding downcast_key
  key_columns [] batch = some []
  key_columns (ci ∷ col_idxs) batch = do
    arr ← column batch ci
    col ← downcast_key arr (kind (data_type arr))
    cols ← key_columns col_idxs batch
    some (col ∷ cols)

  unfoldable pub key_part : ℕ → KeyCol → CompositeKeyPart
  key_part i (KeyCol.i64 a value) =
      if is_null a i then CompositeKeyPart.null else CompositeKeyPart.i64 (value i)
  key_part i (KeyCol.str a value) =
      if is_null a i then CompositeKeyPart.null else CompositeKeyPart.str (value i)

  unfoldable pub key_at : ℕ → List KeyCol → List CompositeKeyPart
  unfolding key_part
  key_at i [] = []
  key_at i (col ∷ cols) = key_part i col ∷ key_at i cols

  -- the keys of the rows `i .. i + n`
  unfoldable pub keys_from : ℕ → ℕ → List KeyCol → List (List CompositeKeyPart)
  unfolding key_at
  keys_from zero i cols = []
  keys_from (suc n) i cols = key_at i cols ∷ keys_from n (suc i) cols

  unfoldable pub row_keys : List ℕ → RecordBatch → Option (List (List CompositeKeyPart))
  unfolding keys_from key_columns
  row_keys col_idxs batch = do
    cols ← key_columns col_idxs batch
    some (keys_from (num_rows batch) 0 cols)

  module _ ⦃fl : Float F⦄ where
    -- the typed array of the macros `collect_typed!` and `count_typed!`, read `as f64`; the
    -- outer `none` is a type that the macros have no arm for, the inner one a panic of `expect`
    unfoldable pub typed_values : Kind → Array → Option (Option (ℕ → F))
    typed_values (Kind.int t) arr = some (do value ← as_ints t arr; some (λ i. fl.of_int (value i)))
    typed_values Kind.float32 arr = some (as_f32 arr)
    typed_values Kind.float64 arr = some (as_f64 arr)
    typed_values _ arr = none

    -- the errors of `count_oob` and `collect_numeric_into`
    abbrev pub between_unsupported : DataType → Message F
    between_unsupported dt =
        lit "scan-path between: unsupported Arrow type "
        ∷ Piece.str (debug_type dt)
        ∷ lit " (supported: signed/unsigned integers + Float32/64)"
        ∷ []

    abbrev pub collect_unsupported : DataType → Message F
    collect_unsupported dt =
        lit "scan-path numeric collection: unsupported Arrow type " ∷ Piece.str (debug_type dt) ∷ []

    unfoldable pub count_oob : Array → F → F → Option (Result (Message F) ℕ)
    unfolding typed_values
    count_oob arr low high = elim (typed_values (kind (data_type arr)) arr) [
      | some typed ↦ do value ← typed; some (ok (oob_cells low high (cells arr value) 0))
      | none ↦ some (err (between_unsupported (data_type arr)))
    ]

    unfoldable pub collect_numeric_into : Array → List F → Option (Result (Message F) (List F))
    unfolding typed_values
    collect_numeric_into arr out = elim (typed_values (kind (data_type arr)) arr) [
      | some typed ↦ do value ← typed; some (ok (collect_cells (cells arr value) out))
      | none ↦ some (err (collect_unsupported (data_type arr)))
    ]

    unfoldable pub update_between : String → ℕ → F → F → ℕ → RecordBatch → Option (Acc F Regex)
    unfolding count_oob
    update_between name col_idx low high oob_count batch = do
      arr ← column batch col_idx
      counted ← count_oob arr low high
      elim counted [
        | ok n ↦ some (Acc.between name col_idx low high (add_u64 oob_count n))
        | err e ↦ some (Acc.error e)
      ]

    unfoldable pub update_percentile :
        String → ℕ → F → F → F → List F → RecordBatch → Option (Acc F Regex)
    unfolding collect_numeric_into
    update_percentile name col_idx p low high values batch = do
      arr ← column batch col_idx
      collected ← collect_numeric_into arr values
      elim collected [
        | ok values' ↦ some (Acc.percentile_between name col_idx p low high values')
        | err e ↦ some (Acc.error e)
      ]

    unfoldable pub update : Acc F Regex → RecordBatch → Option (Acc F Regex)
    unfolding update_not_null int64_column string_column timestamp_column row_keys update_between
        update_percentile
    update (Acc.not_null name col_idx nulls) batch = do
      nulls' ← update_not_null col_idx nulls batch
      some (Acc.not_null name col_idx nulls')
    update (Acc.unique_i64 name col_idx seen dup_count) batch = do
      cs ← int64_column col_idx batch
      let (seen', dup_count') = unique_cells cs (seen, dup_count)
      some (Acc.unique_i64 name col_idx seen' dup_count')
    update (Acc.unique_str name col_idx seen dup_count) batch = do
      cs ← string_column col_idx batch
      let (seen', dup_count') = unique_cells cs (seen, dup_count)
      some (Acc.unique_str name col_idx seen' dup_count')
    update (Acc.unique_composite names col_idxs seen dup_count) batch = do
      keys ← row_keys col_idxs batch
      let (seen', dup_count') = insert_keys keys (seen, dup_count)
      some (Acc.unique_composite names col_idxs seen' dup_count')
    update (Acc.between name col_idx low high oob_count) batch =
        update_between name col_idx low high oob_count batch
    update (Acc.regex name col_idx re pattern' miss_count) batch = do
      cs ← string_column col_idx batch
      some (Acc.regex name col_idx re pattern' (miss_cells (is_match re) cs miss_count))
    update (Acc.enum name col_idx allowed allowed_len miss_count) batch = do
      cs ← string_column col_idx batch
      some (Acc.enum name col_idx allowed allowed_len (miss_cells (contains allowed) cs miss_count))
    update (Acc.row_count low high count) batch =
        some (Acc.row_count low high (add_i64 count (as_i64 (num_rows batch))))
    update (Acc.freshness name col_idx unit within_seconds max_value) batch = do
      cs ← timestamp_column unit col_idx batch
      some (Acc.freshness name col_idx unit within_seconds (merge_max max_value (max_ts cs none)))
    update (Acc.percentile_between name col_idx p low high values) batch =
        update_percentile name col_idx p low high values batch
    update (Acc.cardinality_i64 name col_idx low high seen) batch = do
      cs ← int64_column col_idx batch
      some (Acc.cardinality_i64 name col_idx low high (cardinality_cells cs seen))
    update (Acc.cardinality_str name col_idx low high seen) batch = do
      cs ← string_column col_idx batch
      some (Acc.cardinality_str name col_idx low high (cardinality_cells cs seen))
    update (Acc.schema_match verdict message) batch = some (Acc.schema_match verdict message)
    update (Acc.error message) batch = some (Acc.error message)
