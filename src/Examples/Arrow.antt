-- ===== src/Examples/Arrow.antt =====
-- A small arrow crate: batches as named columns, valid by construction, and a regex crate whose
-- patterns match themselves.
pub mod Laws
use ematix_probe.Prelude.{
  ℕ, zero, suc, ℤ, pos, ◌≡◌, ◌≢◌, ◌↔◌, refl, sym, ap, String, Bool, true, false, Option, none, some,
  List, [], ◌∷◌, map, arith, get_elem?, is_none, All, if◌then◌else◌, ◌==◌, string_eq, Bool-cases,
  Option-cases, inl, inr,
}
use ematix_probe.Crates.{Result, ok, err, IntType, TimeUnit, Kind, Crates}
use ematix_probe.Crates.Laws.{IsArrow, nulls_from}
use ematix_probe.Examples.Numbers.{Thousandths}

pub data ColumnType : Type 0 where
  int64 utf8 float64 seconds : ColumnType

-- the cells of a column at every row
pub data Column : Type 0 where
  ints : (ℕ → Option ℤ) → Column
  strings : (ℕ → Option String) → Column
  floats : (ℕ → Option Thousandths) → Column
  times : (ℕ → Option ℤ) → Column

pub record Batch : Type 0 where
  pub rows : ℕ
  pub columns : List (String × Column)

abbrev pub column_type : Column → ColumnType
column_type (ints f) = int64
column_type (strings f) = utf8
column_type (floats f) = float64
column_type (times f) = seconds

abbrev pub type_kind : ColumnType → Kind
type_kind int64 = Kind.int IntType.int64
type_kind utf8 = Kind.utf8
type_kind float64 = Kind.float64
type_kind seconds = Kind.timestamp TimeUnit.second

abbrev pub same_type : ColumnType → ColumnType → Bool
same_type int64 int64 = true
same_type utf8 utf8 = true
same_type float64 float64 = true
same_type seconds seconds = true
same_type _ _ = false

pub same_type_iff : (s t : ColumnType) → (same_type s t ≡ true) ↔ (s ≡ t)
same_type_iff int64 int64 = ground arith
same_type_iff int64 utf8 = ground arith
same_type_iff int64 float64 = ground arith
same_type_iff int64 seconds = ground arith
same_type_iff utf8 int64 = ground arith
same_type_iff utf8 utf8 = ground arith
same_type_iff utf8 float64 = ground arith
same_type_iff utf8 seconds = ground arith
same_type_iff float64 int64 = ground arith
same_type_iff float64 utf8 = ground arith
same_type_iff float64 float64 = ground arith
same_type_iff float64 seconds = ground arith
same_type_iff seconds int64 = ground arith
same_type_iff seconds utf8 = ground arith
same_type_iff seconds float64 = ground arith
same_type_iff seconds seconds = ground arith

abbrev pub Schema : Type 0
Schema = List (String × ColumnType)

abbrev pub Array : Type 0
Array = ℕ × Column

abbrev pub null_at : Column → ℕ → Bool
null_at (ints f) i = is_none (f i)
null_at (strings f) i = is_none (f i)
null_at (floats f) i = is_none (f i)
null_at (times f) i = is_none (f i)

abbrev pub or_else {ℓ} : {A : Type ℓ} → A → Option A → A
or_else d none = d
or_else d (some a) = a

abbrev pub ints_of : IntType → Array → Option (ℕ → ℤ)
ints_of IntType.int64 (n, ints f) = some (λ i. or_else (pos 0) (f i))
ints_of _ _ = none

abbrev pub strings_of : Array → Option (ℕ → String)
strings_of (n, strings f) = some (λ i. or_else "" (f i))
strings_of _ = none

abbrev pub floats_of : Array → Option (ℕ → Thousandths)
floats_of (n, floats f) = some (λ i. or_else (some 0) (f i))
floats_of _ = none

abbrev pub times_of : TimeUnit → Array → Option (ℕ → ℤ)
times_of TimeUnit.second (n, times f) = some (λ i. or_else (pos 0) (f i))
times_of _ _ = none

abbrev next : Option ℕ → Option ℕ
next none = none
next (some i) = some (suc i)

abbrev pub position : Schema → String → Option ℕ
position [] name = none
position ((n, t) ∷ s) name = if n == name then some 0 else next (position s name)

abbrev pub type_at : Schema → ℕ → ColumnType
type_at [] i = int64
type_at ((n, t) ∷ s) zero = t
type_at ((n, t) ∷ s) (suc i) = type_at s i

abbrev pub schema_of : List (String × Column) → Schema
schema_of = map λ f. (f.0, column_type f.1)

abbrev pub column_at : ℕ → List (String × Column) → ℕ → Option Array
column_at rows [] i = none
column_at rows ((n, col) ∷ cols) zero = some (rows, col)
column_at rows ((n, col) ∷ cols) (suc i) = column_at rows cols i

abbrev type_name : ColumnType → String
type_name int64 = "Int64"
type_name utf8 = "Utf8"
type_name float64 = "Float64"
type_name seconds = "Timestamp(Second, None)"

abbrev compile : String → Result String String
compile pattern' = if pattern' == "(" then err "unclosed group" else ok pattern'

abbrev pub arrow : Crates Thousandths
arrow = record {
  DataType = ColumnType;
  Schema = Schema;
  Array = Array;
  RecordBatch = Batch;
  Regex = String;
  kind = type_kind;
  type_eq = same_type;
  debug_type = type_name;
  fields = λ s. s;
  index_of = position;
  field_type = type_at;
  num_rows = λ b. b.rows;
  column = λ b i. column_at b.rows b.columns i;
  data_type = λ a. column_type a.1;
  len = λ a. a.0;
  null_count = λ a. nulls_from a.0 0 (null_at a.1);
  is_null = λ a. null_at a.1;
  as_ints = ints_of;
  as_f32 = λ a. none;
  as_f64 = floats_of;
  as_strings = strings_of;
  as_timestamps = times_of;
  regex_new = compile;
  is_match = λ re s. re == s;
}
