-- ===== src/Examples/Arrow/Laws.antt =====
-- The small arrow crate does what arrow documents.
use ematix_probe.Prelude.{
  ℕ, zero, suc, ℤ, ◌≡◌, ◌≢◌, refl, sym, ap, String, none, some, List, [], ◌∷◌, arith, get_elem?,
  All, ◌==◌, string_eq, Bool-cases, Option-cases, inl, inr,
}
use ematix_probe.Crates.{IntType, TimeUnit, Kind}
use ematix_probe.Crates.Laws.{IsArrow}
use ematix_probe.Examples.Numbers.{Thousandths}
use ematix_probe.Examples.Arrow.{
  ColumnType, Column, ints, strings, floats, times, Batch, Schema, Array, column_type, type_kind,
  same_type_iff, ints_of, strings_of, floats_of, times_of, position, type_at, schema_of, column_at,
  arrow,
}

position-found :
    (s : Schema) (name : String) (i : ℕ)
    → position s name ≡ some i
    → get_elem? s i ≡ some (name, type_at s i)
position-found [] name i h = absurd (ground arith)
position-found ((n, t) ∷ s) name i h = elim (Bool-cases (n == name)) [
  | inl e ↦
      let first : 0 ≡ i = ground arith in
      let same : n ≡ name = ground (arith, string_eq.beq_iff n name) in
      rw (sym first) (ap (λ x. some (x, t)) same)
  | inr e ↦ elim (Option-cases (position s name)) [
    | inl f ↦ absurd (ground arith)
    | inr (j, f) ↦ let same : suc j ≡ i = ground arith in rw (sym same) (position-found s name j f)
  ]
]

position-missing : (s : Schema) (name : String) → position s name ≡ none → All (λ f. f.0 ≢ name) s
position-missing [] name h = tt
position-missing ((n, t) ∷ s) name h = elim (Bool-cases (n == name)) [
  | inl e ↦ absurd (ground arith)
  | inr e ↦ elim (Option-cases (position s name)) [
    | inl f ↦ (λ same. ground (arith, string_eq.beq_iff n name), position-missing s name f)
    | inr (j, f) ↦ absurd (ground arith)
  ]
]

column-of_field_lem :
    (rows : ℕ) (cols : List (String × Column)) (i : ℕ) (name : String) (t : ColumnType)
    → get_elem? (schema_of cols) i ≡ some (name, t)
    → (a : Array) × (column_at rows cols i ≡ some a) × (column_type a.1 ≡ t) × (a.0 ≡ rows)
column-of_field_lem rows [] i name t h = absurd (ground arith)
column-of_field_lem rows ((n, col) ∷ cols) zero name t h = ((rows, col), refl, ground arith, refl)
column-of_field_lem rows ((n, col) ∷ cols) (suc i) name t h =
    column-of_field_lem rows cols i name t h

ints-some :
    (a : Array) (t : IntType)
    → type_kind (column_type a.1) ≡ Kind.int t
    → (v : ℕ → ℤ) × (ints_of t a ≡ some v)
ints-some (n, ints f) IntType.int64 h = (_, refl)
ints-some (n, ints f) IntType.int8 h = absurd (ground arith)
ints-some (n, ints f) IntType.int16 h = absurd (ground arith)
ints-some (n, ints f) IntType.int32 h = absurd (ground arith)
ints-some (n, ints f) IntType.uint8 h = absurd (ground arith)
ints-some (n, ints f) IntType.uint16 h = absurd (ground arith)
ints-some (n, ints f) IntType.uint32 h = absurd (ground arith)
ints-some (n, ints f) IntType.uint64 h = absurd (ground arith)
ints-some (n, strings f) t h = absurd (ground arith)
ints-some (n, floats f) t h = absurd (ground arith)
ints-some (n, times f) t h = absurd (ground arith)

singles-some :
    (a : Array)
    → type_kind (column_type a.1) ≡ Kind.float32
    → (v : ℕ → Thousandths) × (none ≡ some v)
singles-some (n, ints f) h = absurd (ground arith)
singles-some (n, strings f) h = absurd (ground arith)
singles-some (n, floats f) h = absurd (ground arith)
singles-some (n, times f) h = absurd (ground arith)

floats-some :
    (a : Array)
    → type_kind (column_type a.1) ≡ Kind.float64
    → (v : ℕ → Thousandths) × (floats_of a ≡ some v)
floats-some (n, ints f) h = absurd (ground arith)
floats-some (n, strings f) h = absurd (ground arith)
floats-some (n, floats f) h = (_, refl)
floats-some (n, times f) h = absurd (ground arith)

strings-some :
    (a : Array)
    → type_kind (column_type a.1) ≡ Kind.utf8
    → (v : ℕ → String) × (strings_of a ≡ some v)
strings-some (n, ints f) h = absurd (ground arith)
strings-some (n, strings f) h = (_, refl)
strings-some (n, floats f) h = absurd (ground arith)
strings-some (n, times f) h = absurd (ground arith)

times-some :
    (a : Array) (u : TimeUnit)
    → type_kind (column_type a.1) ≡ Kind.timestamp u
    → (v : ℕ → ℤ) × (times_of u a ≡ some v)
times-some (n, times f) TimeUnit.second h = (_, refl)
times-some (n, times f) TimeUnit.millisecond h = absurd (ground arith)
times-some (n, times f) TimeUnit.microsecond h = absurd (ground arith)
times-some (n, times f) TimeUnit.nanosecond h = absurd (ground arith)
times-some (n, ints f) u h = absurd (ground arith)
times-some (n, strings f) u h = absurd (ground arith)
times-some (n, floats f) u h = absurd (ground arith)

pub arrow-IsArrow : IsArrow arrow
arrow-IsArrow = record {
  batch_schema = λ b. schema_of b.columns;
  type_eq_iff = same_type_iff;
  index_of-found = position-found;
  index_of-missing = position-missing;
  column-of_field = λ b. column-of_field_lem b.rows b.columns;
  null_count-nulls = λ a. refl;
  as_ints-some = ints-some;
  as_f32-some = singles-some;
  as_f64-some = floats-some;
  as_strings-some = strings-some;
  as_timestamps-some = times-some;
}

-- the schema that a batch has
pub batch_schema_lem : (b : Batch) → arrow-IsArrow.batch_schema b ≡ schema_of b.columns
unfolding arrow-IsArrow
batch_schema_lem b = refl
