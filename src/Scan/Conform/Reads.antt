-- ===== src/Scan/Conform/Reads.antt =====
-- The reads of `Acc::update` on a batch of the schema.
use ematix_probe.Prelude.{
  ℕ, zero, suc, ℤ, ◌+◌, ◌≤◌, ◌≡◌, ◌⊎◌, refl, ap, ◌∙◌, String, true, Option, none, some, List, [],
  ◌∷◌, ◌++◌, arith, length, length-append, All, Option-cases, inl, inr,
}
use ematix_probe.Float.{Float}
use ematix_probe.Crates.{IntType, TimeUnit, Kind, Crates}
use ematix_probe.Crates.Laws.{IsArrow}
use ematix_probe.Scan.Acc.{CompositeKeyPart}
use ematix_probe.Scan.Build.{is_key_type}
use ematix_probe.Scan.Cells.{cells_from, collect_cells}
use ematix_probe.Scan.Update.{
  ◌>>=◌, cells, int64_column, string_column, timestamp_column, KeyCol, downcast_key, key_columns,
  row_keys, keys_from, typed_values,
}
use ematix_probe.Scan.Conform.{HasField, HasKind, HasKey}

pub length-cells_from {ℓ} :
    {A : Type ℓ} (n i : ℕ) (is_null : ℕ → _) (value : ℕ → A)
    → length (cells_from n i is_null value) ≡ n
unfolding cells_from
length-cells_from zero i is_null value = refl
length-cells_from (suc n) i is_null value = ap suc (length-cells_from n (suc i) is_null value)

pub length-collect_cells-le :
    {A : Type 0} (cs : List (Option A)) (out : List A)
    → length (collect_cells cs out) ≤ length out + length cs
unfolding collect_cells
length-collect_cells-le [] out = omega arith
length-collect_cells-le (none ∷ cs) out = omega (arith, length-collect_cells-le cs out)
length-collect_cells-le (some v ∷ cs) out =
    omega (arith, length-collect_cells-le cs (out ++ v ∷ []), length-append out (v ∷ []))

module _ {F : Type 0} (c : Crates F) (law : IsArrow c) (b : c.RecordBatch) where
  open c use {Array, kind, column, data_type, len, num_rows, fields}

  -- the schema of the batch
  abbrev here : c.Schema
  here = law.batch_schema b

  pub column-HasField :
      (i : ℕ) → HasField c here i → (a : Array) × (column b i ≡ some a) × (len a ≡ num_rows b)
  column-HasField i ((name, t), at) =
      let (a, read, typed, long) = law.column-of_field b i name t at in (a, read, long)

  pub column-HasKind :
      (i : ℕ) (k : Kind)
      → HasKind c here i k
      → (a : Array) × (column b i ≡ some a) × (kind (data_type a) ≡ k)
  column-HasKind i k ((name, t), at, e) =
      let (a, read, typed, long) = law.column-of_field b i name t at in (a, read, ap kind typed ∙ e)

  pub int64_column-some :
      (i : ℕ)
      → HasKind c here i (Kind.int IntType.int64)
      → (cs : List (Option ℤ)) × (int64_column c i b ≡ some cs)
  unfolding int64_column
  int64_column-some i h =
      let (a, read, typed) = column-HasKind i (Kind.int IntType.int64) h in
      let (v, cast) = law.as_ints-some a IntType.int64 typed in
      (cells c a v, rw (read, ◌>>=◌, cast, ◌>>=◌) refl)

  pub string_column-some :
      (i : ℕ)
      → HasKind c here i Kind.utf8
      → (cs : List (Option String)) × (string_column c i b ≡ some cs)
  unfolding string_column
  string_column-some i h =
      let (a, read, typed) = column-HasKind i Kind.utf8 h in
      let (v, cast) = law.as_strings-some a typed in
      (cells c a v, rw (read, ◌>>=◌, cast, ◌>>=◌) refl)

  pub timestamp_column-some :
      (u : TimeUnit) (i : ℕ)
      → HasKind c here i (Kind.timestamp u)
      → (cs : List (Option ℤ)) × (timestamp_column c u i b ≡ some cs)
  unfolding timestamp_column
  timestamp_column-some u i h =
      let (a, read, typed) = column-HasKind i (Kind.timestamp u) h in
      let (v, cast) = law.as_timestamps-some a u typed in
      (cells c a v, rw (read, ◌>>=◌, cast, ◌>>=◌) refl)

  downcast_key-some :
      (a : Array) (k : Kind)
      → kind (data_type a) ≡ k
      → is_key_type k ≡ true
      → (col : KeyCol c) × (downcast_key c a k ≡ some col)
  unfolding downcast_key
  downcast_key-some a (Kind.int IntType.int64) e h =
      let (v, cast) = law.as_ints-some a IntType.int64 e in (KeyCol.i64 a v, rw cast)
  downcast_key-some a Kind.utf8 e h =
      let (v, cast) = law.as_strings-some a e in (KeyCol.str a v, rw cast)
  downcast_key-some a _ e h = cc

  key_columns-some :
      (is : List ℕ)
      → All (HasKey c here) is
      → (cols : List (KeyCol c)) × (key_columns c is b ≡ some cols)
  unfolding key_columns
  key_columns-some [] h = ([], refl)
  key_columns-some (i ∷ is) (((name, t), at, key), h) =
      let (a, read, typed, long) = law.column-of_field b i name t at in
      let (col, down) = downcast_key-some a (kind (data_type a)) refl (rw typed key) in
      let (cols, rest) = key_columns-some is h in (col ∷ cols, rw (read, ◌>>=◌, down, ◌>>=◌, rest))

  pub row_keys-some :
      (is : List ℕ)
      → All (HasKey c here) is
      → (keys : List (List CompositeKeyPart)) × (row_keys c is b ≡ some keys)
  unfolding row_keys
  row_keys-some is h =
      let (cols, e) = key_columns-some is h in (keys_from c (num_rows b) 0 cols, rw e)

  module _ ⦃fl : Float F⦄ where
    -- Where the macros have an arm for the type, its downcast succeeds.
    typed_values-some :
        (a : Array) (k : Kind) {typed : Option (ℕ → F)}
        → kind (data_type a) ≡ k
        → typed_values c k a ≡ some typed
        → (v : ℕ → F) × (typed ≡ some v)
    unfolding typed_values
    typed_values-some a (Kind.int t) e h =
        let (v, cast) = law.as_ints-some a t e in (λ i. fl.of_int (v i), ground arith)
    typed_values-some a Kind.float32 e h = let (v, cast) = law.as_f32-some a e in (v, cc)
    typed_values-some a Kind.float64 e h = let (v, cast) = law.as_f64-some a e in (v, cc)
    typed_values-some a Kind.utf8 e h = cc
    typed_values-some a (Kind.timestamp u) e h = cc
    typed_values-some a Kind.other e h = cc

    -- A read of numbers finds either a type without an arm or values to read.
    pub typed_values-cases :
        (a : Array)
        → (typed_values c (kind (data_type a)) a ≡ none)
          ⊎ ((v : ℕ → F) × (typed_values c (kind (data_type a)) a ≡ some (some v)))
    typed_values-cases a = elim (Option-cases (typed_values c (kind (data_type a)) a)) [
      | inl e ↦ inl e
      | inr (typed, e) ↦
          let (v, f) = typed_values-some a (kind (data_type a)) refl e in inr (v, e ∙ ap some f)
    ]
