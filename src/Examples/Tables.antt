-- ===== src/Examples/Tables.antt =====
-- A database with a table of two rows, the same in every column: a text and a NULL, and two arrow
-- batches of a column with these. The theorems on what the Postgres checks decide, applied to it.
use ematix_probe.Prelude.{
  arith, All, ℕ, ◌≡◌, ◌≢◌, refl, ap, sym, pos, String, length, true, not, ◌||◌, Option, none, some,
  List, [], ◌∷◌, map, count, contains, if◌then◌else◌, string_eq, nat_eq, list_eq,
}
use ematix_probe.Message.{Piece, Message, lit, str}
use ematix_probe.Adapter.{returned}
use ematix_probe.Data.{Assertion, ProbePlan, AssertionResult, reduce_verdict, summarise}
use ematix_probe.Crates.{ok}
use ematix_probe.Postgres.Pool.{SqlParam, Pool}
use ematix_probe.Postgres.Execute.{execute, table_of}
use ematix_probe.Postgres.Ident.{quote_ident}
use ematix_probe.Postgres.Checks.{placeholders}
use ematix_probe.Prelude.Counts.{repeated, option_eq}
use ematix_probe.Postgres.Tables.{Table, HoldsTable, passes, keys}
use ematix_probe.Postgres.Meaning.{IsCounted, AllDecided, execute-decides}
use ematix_probe.Postgres.Shown.{Shows}
use ematix_probe.Data.Alike.{Agree}
use ematix_probe.Postgres.Agreement.{execute-evaluate}
use ematix_probe.Examples.Table.{cell}
use ematix_probe.Examples.Arrow.Laws.{arrow-IsArrow, batch_schema_lem}
use ematix_probe.Scan.Acc.{CompositeKeyPart, part_eq}
use ematix_probe.Scan.Build.{column_index, group_columns}
use ematix_probe.Scan.Cells.{cells_from}
use ematix_probe.Scan.Update.{
  string_column, row_keys, key_columns, downcast_key, keys_from, key_at, key_part,
}
use ematix_probe.Scan.Run.{gather}
use ematix_probe.Scan.Arms.{null_column}
use ematix_probe.Scan.Evaluate.{evaluate, vec_scanner}
use ematix_probe.Examples.Numbers.{Thousandths, thousandths, thousandths-IsIeee}
use ematix_probe.Examples.Arrow.{ColumnType, Column, Batch, Schema, arrow}

abbrev text_of : CompositeKeyPart → String
text_of (CompositeKeyPart.str s) = s
text_of _ = ""

-- a row is its cell
abbrev table : Table Thousandths (Option CompositeKeyPart) CompositeKeyPart
table = record {
  has = λ column. true;
  is_number = λ column. true;
  is_text = λ column. true;
  rows = some (CompositeKeyPart.str "a") ∷ none ∷ [];
  cell = λ r column. r;
  number = λ v. some 1500;
  text = text_of;
  less = thousandths.lt;
  is_pattern = λ p. true;
  matches = λ p t. contains (p ∷ []) t;
}

abbrev texts : List (SqlParam Thousandths) → List String
texts [] = []
texts (SqlParam.text t ∷ ps) = t ∷ texts ps
texts (SqlParam.float8 f ∷ ps) = texts ps

texts-map : (ts : List String) → texts (map SqlParam.text ts) ≡ ts
texts-map [] = refl
texts-map (t ∷ ts) = ap (λ us. t ∷ us) (texts-map ts)

-- the rows of the table, those with NULL, and the values that come twice
abbrev simple : Message Thousandths → ℕ
simple (t ∷ []) = 2
simple _ = 1

abbrev of_text : Message Thousandths → ℕ
of_text (Piece.lit l ∷ rest) = if string_eq.beq l "SELECT count(*) FROM " then simple rest else 0
of_text _ = 0

abbrev missing : List String → ℕ
missing allowed = count (passes table (λ v. not (contains allowed (table.text v)))) table.rows

abbrev answer : Message Thousandths → List (SqlParam Thousandths) → ℕ
answer sql [] = of_text sql
answer sql (SqlParam.float8 low ∷ SqlParam.float8 high ∷ []) =
    count (passes table (λ v. thousandths.lt (some 1500) low || thousandths.lt high (some 1500)))
      table.rows
answer sql ps = missing (texts ps)

abbrev pool : Pool ℕ Thousandths
pool = record {
  get = λ s. (ok tt, s);
  query_count = λ sql ps s. (ok (pos (answer sql ps)), s);
  query_age = λ sql s. (ok none, s);
}

abbrev plan : ProbePlan Thousandths ColumnType
plan = record {
  schema = none;
  table = "items";
  assertions =
      Assertion.unique_group ("id" ∷ [])
      ∷ Assertion.not_null "id"
      ∷ Assertion.enum "id" ("a" ∷ "b" ∷ [])
      ∷ Assertion.regex "id" "b"
      ∷ Assertion.row_count (some (pos 1)) none
      ∷ [];
}

not_in :
    (sql : Message Thousandths) (allowed : List String)
    → allowed ≢ []
    → missing allowed ≡ answer sql (map SqlParam.text allowed)
not_in sql [] h = absurd (h refl)
not_in sql (t ∷ ts) h = ap missing (sym (texts-map (t ∷ ts)))

repeated-keys : (columns : List String) → columns ≢ [] → repeated (keys table columns) ≡ 0
repeated-keys [] h = absurd (h refl)
repeated-keys (c ∷ columns) h = refl

pool-HoldsTable : HoldsTable pool plan table
pool-HoldsTable = record {
  got = λ s. refl;
  counts_all = λ s. refl;
  counts_null = λ column s h. refl;
  counts_repeated = λ column s h. refl;
  counts_repeated_keys = λ columns s h all. ap (λ n. ok (pos n)) (sym (repeated-keys columns h));
  counts_outside = λ column low high s h t. refl;
  counts_unmatched = λ column pattern' s h t r. refl;
  counts_not_in = λ column allowed s h t n few.
      ap (λ k. ok (pos k))
        (sym (
          not_in
            (lit "SELECT count(*) FROM "
              ∷ table_of plan
              ∷ lit " WHERE "
              ∷ str (quote_ident column)
              ∷ lit " NOT IN ("
              ∷ placeholders 1 (length allowed) (lit ")" ∷ []))
            allowed n));
}

counted : All (IsCounted table) plan.assertions
counted = (
  ((λ e. cc), (refl, tt)),
  (refl, ((refl, refl, (λ e. cc), omega arith), ((refl, refl, refl), (refl, tt)))),
)

execute-decides_example :
    (results : List (AssertionResult Thousandths)) × (s' : ℕ) × (execute pool plan 0
      ≡ (returned (summarise results), s'))
    × AllDecided table 0 plan.assertions results
execute-decides_example = execute-decides pool plan table pool-HoldsTable 0 counted

-- the table as two batches
abbrev schema : Schema
schema = ("id", ColumnType.utf8) ∷ []

abbrev one_row : Option String → Batch
one_row c = record { rows = 1; columns = ("id", Column.strings (cell (c ∷ []))) ∷ [] }

abbrev batches : List Batch
batches = one_row (some "a") ∷ one_row none ∷ []

abbrev value : CompositeKeyPart → Option CompositeKeyPart
value CompositeKeyPart.null = none
value part = some part

value-apart : (a b : CompositeKeyPart) → value a ≡ value b → a ≡ b
value-apart CompositeKeyPart.null CompositeKeyPart.null e = refl
value-apart CompositeKeyPart.null (CompositeKeyPart.i64 _) e = cc
value-apart CompositeKeyPart.null (CompositeKeyPart.str _) e = cc
value-apart (CompositeKeyPart.i64 _) CompositeKeyPart.null e = cc
value-apart (CompositeKeyPart.str _) CompositeKeyPart.null e = cc
value-apart (CompositeKeyPart.i64 a) (CompositeKeyPart.i64 b) e = cc
value-apart (CompositeKeyPart.i64 a) (CompositeKeyPart.str b) e = cc
value-apart (CompositeKeyPart.str a) (CompositeKeyPart.i64 b) e = cc
value-apart (CompositeKeyPart.str a) (CompositeKeyPart.str b) e = cc

keys_read :
    gather (row_keys arrow (0 ∷ [])) batches
    ≡ some ((CompositeKeyPart.str "a" ∷ []) ∷ (CompositeKeyPart.null ∷ []) ∷ [])
unfolding gather row_keys key_columns downcast_key keys_from key_at key_part
keys_read = refl

key_found : group_columns arrow schema ("id" ∷ []) [] ≡ ok (0 ∷ [])
unfolding group_columns column_index
key_found = refl

texts_read : gather (string_column arrow 0) batches ≡ some (some "a" ∷ none ∷ [])
unfolding gather string_column cells_from
texts_read = refl

nulls_read : gather (null_column arrow 0) batches ≡ some (0 ∷ 1 ∷ [])
unfolding gather null_column
nulls_read = refl

shown : All (Shows arrow table schema batches) plan.assertions
shown = (
  (
    0 ∷ [],
    (CompositeKeyPart.str "a" ∷ []) ∷ (CompositeKeyPart.null ∷ []) ∷ [],
    value,
    key_found,
    keys_read,
    refl,
    value-apart,
  ),
  (
    (0, 0 ∷ 1 ∷ [], refl, nulls_read, refl),
    (
      (0, refl, refl, texts_read),
      ((0, "b", refl, refl, refl, texts_read, (refl, (tt, tt))), (tt, tt)),
    ),
  ),
)

execute-evaluate_example :
    (results others : List (AssertionResult Thousandths)) × (t' : ℕ) × (execute pool plan 0
      ≡ (returned (summarise results), t'))
    × (evaluate arrow vec_scanner 3 (λ i. some 60) plan (record { schema = schema; iter = batches })
        ≡ returned (summarise others))
    × Agree results others
    × (reduce_verdict results ≡ reduce_verdict others)
execute-evaluate_example =
    execute-evaluate arrow arrow-IsArrow table schema batches refl (omega arith) thousandths-IsIeee
      pool vec_scanner plan 3 (λ i. some 60) 0 (record { schema = schema; iter = batches })
      pool-HoldsTable counted shown (omega arith) refl (refl, (refl, refl))
      (batch_schema_lem (one_row (some "a")), (batch_schema_lem (one_row none), tt))
