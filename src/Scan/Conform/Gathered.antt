-- ===== src/Scan/Conform/Gathered.antt =====
-- The reads of the columns of all batches of a schema, by engine/scan.rs.
use ematix_probe.Prelude.{ℕ, ℤ, ◌≡◌, refl, String, Option, some, List, [], ◌∷◌, ◌++◌, All}
use ematix_probe.Crates.{IntType, TimeUnit, Kind, Crates}
use ematix_probe.Crates.Laws.{IsArrow}
use ematix_probe.Scan.Update.{◌>>=◌, int64_column, string_column, timestamp_column}
use ematix_probe.Scan.Run.{gather}
use ematix_probe.Scan.Conform.{HasKind}
use ematix_probe.Scan.Conform.Reads.{int64_column-some, string_column-some, timestamp_column-some}

gather-some :
    {B X : Type 0} (P : B → Type 0) (read : B → Option (List X)) (bs : List B)
    → ((b : B) → P b → (xs : List X) × (read b ≡ some xs))
    → All P bs
    → (xs : List X) × (gather read bs ≡ some xs)
unfolding gather
gather-some P read [] reads h = ([], refl)
gather-some P read (b ∷ bs) reads (p, h) =
    let (xs, e) = reads b p in
    let (rest, f) = gather-some P read bs reads h in (xs ++ rest, rw (e, ◌>>=◌, f) refl)

module _ {F : Type 0} (c : Crates F) (law : IsArrow c) (schema : c.Schema)
    (batches : List c.RecordBatch) where
  open c use {kind, index_of, field_type}

  found-HasKind :
      (name : String) (k : ℕ) (kd : Kind)
      → index_of schema name ≡ some k
      → kind (field_type schema k) ≡ kd
      → HasKind c schema k kd
  found-HasKind name k kd found typed =
      ((name, field_type schema k), law.index_of-found schema name k found, typed)

  -- With arrow's documented behaviour (IsArrow), the column of a name that the schema has is read
  -- from all batches of that schema, without a panic of the index or of the downcast, if it is an
  -- Int64 column as integers, if it is a Utf8 column as texts, and if it is a timestamp column as
  -- timestamps of its unit.
  gather-columns :
      (name : String) (k : ℕ)
      → index_of schema name ≡ some k
      → All (λ b. law.batch_schema b ≡ schema) batches
      → (kind (field_type schema k) ≡ Kind.int IntType.int64
          → (cells : List (Option ℤ)) × (gather (int64_column c k) batches ≡ some cells))
        × (kind (field_type schema k) ≡ Kind.utf8
            → (cells : List (Option String)) × (gather (string_column c k) batches ≡ some cells))
        × ((unit : TimeUnit)
            → kind (field_type schema k) ≡ Kind.timestamp unit
            → (cells : List (Option ℤ)) × (gather (timestamp_column c unit k) batches ≡ some cells))
  gather-columns name k found same = (
    λ typed.
        gather-some (λ b. law.batch_schema b ≡ schema) (int64_column c k) batches
          (λ b e.
            int64_column-some c law b k
              (rw e (found-HasKind name k (Kind.int IntType.int64) found typed)))
          same,
    (λ typed.
        gather-some (λ b. law.batch_schema b ≡ schema) (string_column c k) batches
          (λ b e. string_column-some c law b k (rw e (found-HasKind name k Kind.utf8 found typed)))
          same),
    λ unit typed.
        gather-some (λ b. law.batch_schema b ≡ schema) (timestamp_column c unit k) batches
          (λ b e.
            timestamp_column-some c law b unit k
              (rw e (found-HasKind name k (Kind.timestamp unit) found typed)))
          same,
  )
