-- ===== src/Postgres/Shown.antt =====
-- A table in Postgres whose rows are also given as arrow batches, and what the scan path of
-- engine/scan.rs decides about the table from the batches.
use ematix_probe.Prelude.{
  ℕ, ◌<◌, ◌^◌, ◌≡◌, ◌↔◌, refl, sym, ap, ◌∙◌, String, false, Option, some, List, [], ◌∷◌, arith, map,
  length, length-map, count, count-le-length, sum, is_none, All, Eq, int_eq, string_eq, list_eq,
}
use ematix_probe.Float.{Float}
use ematix_probe.Crates.{ok, Kind, Crates}
use ematix_probe.Crates.Laws.{IsArrow}
use ematix_probe.Data.{Assertion, AssertionResult}
use ematix_probe.Data.Verdicts.{Decides}
use ematix_probe.Scan.Acc.{CompositeKeyPart, part_eq}
use ematix_probe.Scan.Build.{group_columns}
use ematix_probe.Scan.Update.{string_column, row_keys}
use ematix_probe.Scan.Arms.{number_column, null_column}
use ematix_probe.Scan.Run.{gather, gather-singles, outcome_of}
use ematix_probe.Scan.Decide.{Decides-of_iff}
use ematix_probe.Scan.Decide.Keyed.{Keyed, ValueOf, kind_of, cells_of, unique-decides}
use ematix_probe.Scan.Decide.Unique.{unique_group-decides}
use ematix_probe.Scan.Decide.Counts.{not_null-decides, between-decides, regex-decides, enum-decides}
use ematix_probe.Scan.Decide.Bounds.{row_count-decides}
use ematix_probe.Scan.Total.{rows}
use ematix_probe.Postgres.Tables.{Table, cells, keys}
use ematix_probe.Prelude.Counts.{count-zero_iff, option_eq}
use ematix_probe.Postgres.Cells.{
  Asks, over, asked-observed, All-Asks, All-Asks_pure, Distinct-over_iff, Distinct-map_iff,
  map_injective,
}
use ematix_probe.Postgres.Meaning.{IsCounted, Satisfies}

module _ {F Row Value : Type 0} (c : Crates F) ⦃fl : Float F⦄ ⦃same : Eq Value⦄
    (table : Table F Row Value) (sch : c.Schema) (bs : List c.RecordBatch) where
  open c use {DataType, Regex, kind, index_of, field_type, regex_new, is_match}

  -- What the assertion reads of the batches is what the table holds: the null counts add up to its
  -- NULLs, the numbers and texts are those of its cells, and equal keys are equal cells. On numbers,
  -- the order of `f64` is that of float8 (so none is a NaN), and on texts the regex crate matches as
  -- `~` does. A column that is asked to be unique has no NULL, which the two paths take differently.
  abbrev pub Shows : Assertion F DataType → Type 0
  Shows (Assertion.not_null column) =
      (k : ℕ) × (nulls : List ℕ) × (index_of sch column ≡ some k)
      × (gather (null_column c k) bs ≡ some nulls)
      × (sum nulls ≡ count is_none (cells table column))
  Shows (Assertion.unique column) =
      (k : ℕ) × (t : Keyed) × (cs : List (Option (ValueOf t))) × (value : ValueOf t → Value)
      × (index_of sch column ≡ some k)
      × (kind (field_type sch k) ≡ kind_of t)
      × (gather (cells_of c t k) bs ≡ some cs)
      × (cells table column ≡ map (over value) cs)
      × ((a b : ValueOf t) → value a ≡ value b → a ≡ b)
      × All (λ v. is_none v ≡ false) (cells table column)
  Shows (Assertion.unique_group columns) =
      (idxs : List ℕ) × (parts : List (List CompositeKeyPart)) × (value : CompositeKeyPart
        → Option Value)
      × (group_columns c sch columns [] ≡ ok idxs)
      × (gather (row_keys c idxs) bs ≡ some parts)
      × (keys table columns ≡ map (map value) parts)
      × ((a b : CompositeKeyPart) → value a ≡ value b → a ≡ b)
  Shows (Assertion.between column low high) =
      (k : ℕ) × (index_of sch column ≡ some k)
      × (gather (number_column c k) bs ≡ some (map (over table.number) (cells table column)))
      × All
          (Asks λ v.
            (table.less (table.number v) low ≡ fl.lt (table.number v) low)
            × (table.less high (table.number v) ≡ fl.lt high (table.number v)))
          (cells table column)
  Shows (Assertion.regex column pattern') =
      (k : ℕ) × (re : Regex) × (index_of sch column ≡ some k)
      × (kind (field_type sch k) ≡ Kind.utf8)
      × (regex_new pattern' ≡ ok re)
      × (gather (string_column c k) bs ≡ some (map (over table.text) (cells table column)))
      × All (Asks λ v. is_match re (table.text v) ≡ table.matches pattern' (table.text v))
          (cells table column)
  Shows (Assertion.enum column allowed) =
      (k : ℕ) × (index_of sch column ≡ some k)
      × (kind (field_type sch k) ≡ Kind.utf8)
      × (gather (string_column c k) bs ≡ some (map (over table.text) (cells table column)))
  Shows (Assertion.row_count low high) = Unit
  Shows _ = ⊥

module _ {F Row Value : Type 0} ⦃fl : Float F⦄ (table : Table F Row Value) where
  length-cells : (column : String) → length (cells table column) ≡ length table.rows
  length-cells column = length-map table.rows (λ r. table.cell r column)

  length-keys : (columns : List String) → length (keys table columns) ≡ length table.rows
  length-keys columns = length-map table.rows (λ r. map (table.cell r) columns)

sum-num_rows :
    {F : Type 0} ⦃fl : Float F⦄ (c : Crates F) (law : IsArrow c) (bs : List c.RecordBatch)
    → sum (map c.num_rows bs) ≡ rows c law bs
sum-num_rows c law [] = refl
sum-num_rows c law (b ∷ bs) = omega (arith, sum-num_rows c law bs)

module _ {F Row Value : Type 0} (c : Crates F) (law : IsArrow c) ⦃fl : Float F⦄ ⦃same : Eq Value⦄
    (table : Table F Row Value) (sch : c.Schema) (bs : List c.RecordBatch)
    (as_many : rows c law bs ≡ length table.rows) (few : length table.rows < 2 ^ 53)
    (clock : Option ℕ) (i : ℕ) where
  open c use {DataType, Regex, kind, index_of, field_type, regex_new, is_match}

  -- The scan path returns a result that decides what the assertion asks of the table.
  abbrev Answers : Assertion F DataType → Type 0
  Answers a =
      (r : AssertionResult F) × (outcome_of c clock i a sch bs ≡ some r)
      × Decides i r (Satisfies table a)

  Answers-of_iff :
      {P : Type 0} (a : Assertion F DataType)
      → (r : AssertionResult F) × (outcome_of c clock i a sch bs ≡ some r) × Decides i r P
      → P ↔ Satisfies table a
      → Answers a
  Answers-of_iff a (r, e, d) iff = (r, e, Decides-of_iff i r iff.0 iff.1 d)

  pub outcome_of-Answers :
      (a : Assertion F DataType) → IsCounted table a → Shows c table sch bs a → Answers a
  outcome_of-Answers (Assertion.not_null column) h (k, nulls, found, read, counted) =
      let many = count-le-length is_none (cells table column) in
      let size = length-cells table column in
      Answers-of_iff (Assertion.not_null column)
        (not_null-decides c clock i column k sch bs found nulls read (omega arith))
        (rw counted (count-zero_iff is_none (cells table column)))
  outcome_of-Answers (Assertion.unique column) h
        (k, t, cs, value, found, typed, read, held, apart, no_null) =
      let size = length-cells table column in
      let cells_size : length cs ≡ length table.rows =
        sym (length-map cs (over value)) ∙ sym (ap length held) ∙ size in
      Answers-of_iff (Assertion.unique column)
        (unique-decides c clock i column k sch bs t cs found typed read (omega arith))
        (rw held (Distinct-over_iff value cs apart (rw held at no_null)))
  outcome_of-Answers (Assertion.unique_group columns) (some_column, all_there)
        (idxs, parts, value, found, read, held, apart) =
      let size = length-keys table columns in
      let parts_size : length parts ≡ length table.rows =
        sym (length-map parts (map value)) ∙ sym (ap length held) ∙ size in
      Answers-of_iff (Assertion.unique_group columns)
        (unique_group-decides c clock i columns idxs sch bs parts some_column found read
          (omega arith))
        (rw held (Distinct-map_iff (map value) (map_injective value apart) parts))
  outcome_of-Answers (Assertion.between column low high) h (k, found, read, ordered) =
      let observed = length-map (cells table column) (over table.number) in
      let size = length-cells table column in
      Answers-of_iff (Assertion.between column low high)
        (between-decides c clock i column k sch bs found low high
          (map (over table.number) (cells table column)) read (omega arith))
        (asked-observed _ _ table.number (cells table column) (
          All-Asks _ _ (cells table column)
            (λ v (below, above). rw (below, above) ((λ p. p), λ p. p)) ordered))
  outcome_of-Answers (Assertion.regex column pattern') h
        (k, re, found, typed, compiled, read, matched) =
      let observed = length-map (cells table column) (over table.text) in
      let size = length-cells table column in
      Answers-of_iff (Assertion.regex column pattern')
        (regex-decides c clock i column k sch bs found pattern' re
          (map (over table.text) (cells table column)) typed compiled read (omega arith))
        (asked-observed _ _ table.text (cells table column)
          (All-Asks _ _ (cells table column) (λ v e. rw e ((λ p. p), λ p. p)) matched))
  outcome_of-Answers (Assertion.enum column allowed) (there, is_text, some_value, short)
        (k, found, typed, read) =
      let observed = length-map (cells table column) (over table.text) in
      let size = length-cells table column in
      Answers-of_iff (Assertion.enum column allowed)
        (enum-decides c clock i column k sch bs found allowed
          (map (over table.text) (cells table column)) some_value typed read (omega arith))
        (asked-observed _ _ table.text (cells table column)
          (All-Asks_pure _ (cells table column) (λ v. ((λ p. p), λ p. p))))
  outcome_of-Answers (Assertion.row_count low high) h shown =
      let total : sum (map c.num_rows bs) ≡ length table.rows = sum-num_rows c law bs ∙ as_many in
      Answers-of_iff (Assertion.row_count low high)
        (row_count-decides c clock i low high sch bs h (map c.num_rows bs)
          (gather-singles c.num_rows bs) (omega arith))
        (rw total ((λ p. p), λ p. p))
  outcome_of-Answers (Assertion.freshness column within) h shown = absurd h
  outcome_of-Answers (Assertion.percentile_between column p low high) h shown = absurd h
  outcome_of-Answers (Assertion.cardinality_between column low high) h shown = absurd h
  outcome_of-Answers (Assertion.schema_match fields) h shown = absurd h
