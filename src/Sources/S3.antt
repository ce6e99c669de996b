-- ===== src/Sources/S3.antt =====
-- `S3ParquetAdapter` of adapters/data/s3_parquet.rs. What it calls of the object_store and tempfile
-- crates and of `tokio::fs` is a parameter; `W` is the state of the stores and of the file system.
pub mod Files
pub mod Tidy
use ematix_probe.Prelude.{ℕ, String, Bool, true, Option, none, some, [], ◌∷◌}
use ematix_probe.Message.{lit, str}
use ematix_probe.Float.{Float}
use ematix_probe.Adapter.{AdapterError, Outcome, returned, and_then}
use ematix_probe.Call.{Call, ◌>>=◌}
use ematix_probe.Crates.{Result, Crates}
use ematix_probe.Blocking.{Reply, answer, request}
use ematix_probe.Data.{ProbePlan, RunSummary}
use ematix_probe.Sources.Parquet.{ParquetCrate}
use ematix_probe.Sources.Parquet.Adapter.{open_parquet, execute_parquet}

-- `AmazonS3Builder`, `ObjectPath::from`, and of a store `get` and the `bytes` of its response.
pub record ObjectStore (W Builder Store Response Bytes : Type 0) : Type 0 where
  pub from_env : Builder
  pub with_bucket_name : String → Builder → Builder
  pub with_region : String → Builder → Builder
  pub with_endpoint : String → Builder → Builder
  pub with_allow_http : Bool → Builder → Builder
  pub build : Builder → Reply (Result String Store)
  pub object_path : String → String
  pub get : Store → String → W → Reply (Result String Response) × W
  pub bytes : Response → W → Reply (Result String Bytes) × W

-- `NamedTempFile::new`, which gives a path, and its drop, which removes the file; `File::create` of
-- `tokio::fs`, and of a file `write_all`, `flush` and its drop.
pub record TempFiles (W File Bytes : Type 0) : Type 0 where
  pub new : W → Reply (Result String String) × W
  pub remove : String → W → W
  pub create : String → W → Reply (Result String File) × W
  pub write_all : File → Bytes → W → Reply (Result String Unit) × W
  pub flush : File → W → Reply (Result String Unit) × W
  pub close : File → W → W

-- `struct S3ParquetAdapter`
pub record S3ParquetAdapter (Store : Type 0) : Type 0 where
  pub store : Store
  pub key : String

-- A value of the scope is dropped at its end, however the scope is left.
unfoldable pub scoped : {S F A : Type 0} → (S → S) → Call S F A → Call S F A
scoped drop m s = ((m s).0, drop (m s).1)

module _ (F : Type 0) {W Builder Store Response Bytes : Type 0}
    (cloud : ObjectStore W Builder Store Response Bytes) where
  -- `open` up to `build`
  unfoldable pub configure : String → String → Option String → Builder
  configure bucket region none =
      cloud.with_region region (cloud.with_bucket_name bucket cloud.from_env)
  configure bucket region (some ep) = cloud.with_allow_http true (
      cloud.with_endpoint ep
        (cloud.with_region region (cloud.with_bucket_name bucket cloud.from_env)))

  -- `from_object_store`
  unfoldable pub from_object_store : Store → String → S3ParquetAdapter Store
  from_object_store store key = record { store = store; key = cloud.object_path key }

  unfoldable pub open_s3 :
      String → String → String → Option String → Outcome F (S3ParquetAdapter Store)
  unfolding configure and_then answer
  open_s3 bucket key region endpoint_url =
      and_then
        (answer (λ e. AdapterError.connection (lit "s3 builder: " ∷ str e ∷ []))
          (cloud.build (configure bucket region endpoint_url)))
        λ store. returned (record { store = store; key = cloud.object_path key })

module _ {F : Type 0} where
  abbrev connection : String → String → AdapterError F
  connection text e = AdapterError.connection (lit text ∷ str e ∷ [])

  module _ {W File Bytes : Type 0} (temp : TempFiles W File Bytes) where
    -- the bytes written to the file at the path, which is closed at the end
    unfoldable pub write_temp : String → Bytes → Call W F Unit
    write_temp path bytes = do
      f ← request (connection "tempfile open: ") (temp.create path)
      scoped (temp.close f) (do
        written ← request (connection "tempfile write: ") (temp.write_all f bytes)
        request (connection "tempfile flush: ") (temp.flush f))

module _ {F : Type 0} (c : Crates F) ⦃fl : Float F⦄ where
  open c use {DataType, Schema, RecordBatch}

  module _ {W Builder Store Response Bytes TempFile File ReaderBuilder Reader : Type 0}
      (cloud : ObjectStore W Builder Store Response Bytes) (temp : TempFiles W TempFile Bytes)
      (parquet : ParquetCrate W File ReaderBuilder Reader Schema RecordBatch) where
    -- `execute` from the temporary file on
    unfoldable pub scan_temp :
        ℕ → (ℕ → Option ℕ) → ProbePlan F DataType → Bytes → String → Call W F (RunSummary F)
    scan_temp fuel clock plan bytes path = do
      written ← write_temp temp path bytes
      adapter ← open_parquet F parquet path
      execute_parquet c parquet fuel clock plan adapter

    unfoldable pub execute_s3 :
        ℕ → (ℕ → Option ℕ) → ProbePlan F DataType → S3ParquetAdapter Store → Call W F (RunSummary F)
    execute_s3 fuel clock plan s3 = do
      response ←
          request
            (λ e. AdapterError.connection (lit "s3 get " ∷ str s3.key ∷ lit ": " ∷ str e ∷ []))
            (cloud.get s3.store s3.key)
      bytes ←
          request
            (λ e. AdapterError.connection (lit "s3 read " ∷ str s3.key ∷ lit ": " ∷ str e ∷ []))
            (cloud.bytes response)
      path ← request (connection "tempfile create: ") temp.new
      scoped (temp.remove path) (scan_temp fuel clock plan bytes path)
