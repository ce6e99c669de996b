-- ===== src/Crates.antt =====
-- What the scan path calls of the arrow and regex crates. Their types and functions are parameters
-- of the model; the facts about them that the proofs use are in Crates/Laws.
pub mod Laws
use ematix_probe.Prelude.{ℕ, ℤ, ◌≡◌, ◌⊎◌, inl, inr, refl, String, Bool, Option, List}

-- `Result<A, E>`
pub data Result (E A : Type 0) : Type 0 where
  ok : A → Result E A
  err : E → Result E A

-- To split on a result and keep the equation.
pub Result-cases :
    {E A : Type 0} (r : Result E A) → ((a : A) × (r ≡ ok a)) ⊎ ((e : E) × (r ≡ err e))
Result-cases (ok a) = inl (a, refl)
Result-cases (err e) = inr (e, refl)

pub data IntType : Type 0 where
  int8 int16 int32 int64 uint8 uint16 uint32 uint64 : IntType

pub data TimeUnit : Type 0 where
  second millisecond microsecond nanosecond : TimeUnit

-- The variants of arrow's `DataType` that the source names.
pub data Kind : Type 0 where
  int : IntType → Kind
  float32 float64 utf8 : Kind
  timestamp : TimeUnit → Kind
  other : Kind

pub record Crates (F : Type 0) : Type 1 where
  pub DataType : Type 0
  pub Schema : Type 0
  pub Array : Type 0
  pub RecordBatch : Type 0
  pub Regex : Type 0
  pub kind : DataType → Kind
  pub type_eq : DataType → DataType → Bool
  pub debug_type : DataType → String
  -- names and types of `schema.fields()`
  pub fields : Schema → List (String × DataType)
  pub index_of : Schema → String → Option ℕ
  -- `schema.field(i).data_type()`, which the source calls at an index that `index_of` gave
  pub field_type : Schema → ℕ → DataType
  pub num_rows : RecordBatch → ℕ
  -- `batch.column(i)`, where `none` is its panic
  pub column : RecordBatch → ℕ → Option Array
  pub data_type : Array → DataType
  pub len : Array → ℕ
  pub null_count : Array → ℕ
  pub is_null : Array → ℕ → Bool
  -- `downcast_ref` to an array type, and `value(i)` of that array; `as_f32` and `as_f64` give
  -- `value(i) as f64`
  pub as_ints : IntType → Array → Option (ℕ → ℤ)
  pub as_f32 : Array → Option (ℕ → F)
  pub as_f64 : Array → Option (ℕ → F)
  pub as_strings : Array → Option (ℕ → String)
  pub as_timestamps : TimeUnit → Array → Option (ℕ → ℤ)
  -- `Regex::new`, with the text of its error, and `is_match`
  pub regex_new : String → Result String Regex
  pub is_match : Regex → String → Bool
