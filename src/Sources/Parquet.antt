-- ===== src/Sources/Parquet.antt =====
-- `ParquetAdapter` of adapters/data/parquet.rs. What it calls of the parquet crate and of the file
-- system is a parameter.
pub mod Adapter
pub mod Pulls
pub mod Streams
use ematix_probe.Prelude.{ℕ, String, Option, none, some, List, [], ◌∷◌}
use ematix_probe.Message.{lit, str}
use ematix_probe.Adapter.{AdapterError}
use ematix_probe.Crates.{Result, ok, err}
use ematix_probe.Blocking.{
  Reply, replied, unwound, Closure, Mutex, map_err, attempt, finish, await_blocking, with_lock,
  ◌>>=◌,
}
use ematix_probe.Scan.Evaluate.{Scanner}

-- `File::open`, and of the crate `ParquetRecordBatchReaderBuilder::try_new`, `build`, and of a reader
-- `schema` and `next`. `W` is the state of the file system; a reader is its state.
pub record ParquetCrate (W File Builder Reader Schema Batch : Type 0) : Type 0 where
  pub open_file : String → W → Reply (Result String File) × W
  pub try_new : File → W → Reply (Result String Builder) × W
  pub build : Builder → W → Reply (Result String Reader) × W
  pub schema : Reader → Schema
  pub next : Reader → Reply (Option (Result String Batch)) × Reader

-- `struct ParquetAdapter`
pub record ParquetAdapter : Type 0 where
  pub path : String

-- `struct ParquetScanner`
pub record ParquetScanner (Reader Schema : Type 0) : Type 0 where
  pub schema : Schema
  pub reader : Mutex (Option Reader)

module _ (F : Type 0) {W File Builder Reader Schema Batch : Type 0}
    (parquet : ParquetCrate W File Builder Reader Schema Batch) where
  -- the end of the closure of `next_batch`, on what the reader gave
  abbrev pub pulled :
      Reply (Option (Result String Batch))
      → Reader
      → Reply (Result (AdapterError F) (Option Batch)) × Option Reader
  pulled (replied none) r = (replied (ok none), none)
  pulled (replied (some (ok batch))) r = (replied (ok (some batch)), some r)
  pulled (replied (some (err e))) r =
      (replied (err (AdapterError.query (lit "parquet read: " ∷ str e ∷ []))), some r)
  pulled (unwound t) r = (unwound t, some r)

  -- the closure of `next_batch`, with the guard
  unfoldable pub pull : Closure (Option Reader) F (Option Batch)
  pull none = (replied (ok none), none)
  pull (some r) = pulled (parquet.next r).0 (parquet.next r).1

  unfoldable pub next_batch :
      ParquetScanner Reader Schema
      → Result (AdapterError F) (Option Batch) × ParquetScanner Reader Schema
  unfolding pull with_lock await_blocking
  next_batch s =
      let (reply, m) = with_lock "parquet reader mutex poisoned" pull s.reader in
      (await_blocking reply, record s { reader = m })

  abbrev pub parquet_scanner : Scanner (ParquetScanner Reader Schema) Schema Batch F
  parquet_scanner = record { schema = λ s. s.schema; next_batch = next_batch }

  -- the closure of `execute`: the reader and its schema
  unfoldable pub open_reader : String → Closure W F (Schema × Reader)
  open_reader path = do
    file ←
        attempt
          (λ e. AdapterError.connection (lit "parquet open " ∷ str path ∷ lit ": " ∷ str e ∷ []))
          (parquet.open_file path)
    builder ←
        attempt (λ e. AdapterError.query (lit "parquet builder: " ∷ str e ∷ []))
          (parquet.try_new file)
    reader ←
        attempt (λ e. AdapterError.query (lit "parquet build: " ∷ str e ∷ []))
          (parquet.build builder)
    finish (parquet.schema reader, reader)
