-- ===== src/Crates/Laws.antt =====
-- The documented behaviour of the arrow crate that the proofs rely on.
use ematix_probe.Prelude.{
  ℕ, zero, suc, ℤ, ◌+◌, ◌≡◌, ◌≢◌, ◌↔◌, String, Bool, true, none, some, get_elem?, All,
  if◌then◌else◌,
}
use ematix_probe.Crates.{IntType, TimeUnit, Kind, Crates}

-- How many of the positions `i .. i + n` are null.
abbrev pub nulls_from : ℕ → ℕ → (ℕ → Bool) → ℕ
nulls_from zero i is_null = 0
nulls_from (suc n) i is_null = (if is_null i then 1 else 0) + nulls_from n (suc i) is_null

pub record IsArrow {F : Type 0} (c : Crates F) : Type 0 where
  -- `batch.schema()`
  pub batch_schema : c.RecordBatch → c.Schema
  pub type_eq_iff : (s t : c.DataType) → (c.type_eq s t ≡ true) ↔ (s ≡ t)
  -- `index_of` finds a field of that name, and fails only where there is none
  pub index_of-found :
      (s : c.Schema) (name : String) (i : ℕ)
      → c.index_of s name ≡ some i
      → get_elem? (c.fields s) i ≡ some (name, c.field_type s i)
  pub index_of-missing :
      (s : c.Schema) (name : String) → c.index_of s name ≡ none → All (λ f. f.0 ≢ name) (c.fields s)
  -- a batch has a column for each field of its schema, of its type and as long as the batch
  pub column-of_field :
      (b : c.RecordBatch) (i : ℕ) (name : String) (t : c.DataType)
      → get_elem? (c.fields (batch_schema b)) i ≡ some (name, t)
      → (a : c.Array) × (c.column b i ≡ some a) × (c.data_type a ≡ t) × (c.len a ≡ c.num_rows b)
  pub null_count-nulls : (a : c.Array) → c.null_count a ≡ nulls_from (c.len a) 0 (c.is_null a)
  -- a downcast to the type that the array has succeeds
  pub as_ints-some :
      (a : c.Array) (t : IntType)
      → c.kind (c.data_type a) ≡ Kind.int t
      → (v : ℕ → ℤ) × (c.as_ints t a ≡ some v)
  pub as_f32-some :
      (a : c.Array) → c.kind (c.data_type a) ≡ Kind.float32 → (v : ℕ → F) × (c.as_f32 a ≡ some v)
  pub as_f64-some :
      (a : c.Array) → c.kind (c.data_type a) ≡ Kind.float64 → (v : ℕ → F) × (c.as_f64 a ≡ some v)
  pub as_strings-some :
      (a : c.Array)
      → c.kind (c.data_type a) ≡ Kind.utf8
      → (v : ℕ → String) × (c.as_strings a ≡ some v)
  pub as_timestamps-some :
      (a : c.Array) (u : TimeUnit)
      → c.kind (c.data_type a) ≡ Kind.timestamp u
      → (v : ℕ → ℤ) × (c.as_timestamps u a ≡ some v)
