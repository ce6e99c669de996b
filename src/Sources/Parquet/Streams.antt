-- ===== src/Sources/Parquet/Streams.antt =====
-- `execute` of adapters/data/parquet.rs over what its scanner delivers.
use ematix_probe.Prelude.{All, ℕ, ◌^◌, ◌<◌, ◌≡◌, ◌⊎◌, String, Option, List, length}
use ematix_probe.Float.{Float, IsIeee}
use ematix_probe.Adapter.{returned, raised, and_then}
use ematix_probe.Data.{ProbePlan, AssertionResult, summarise}
use ematix_probe.Crates.{Crates}
use ematix_probe.Crates.Laws.{IsArrow}
use ematix_probe.Blocking.{await_blocking}
use ematix_probe.Scan.Total.{
  HasSchema, IsSortable, ResultsOf, rows, evaluate-returns, evaluate-Raises,
}
use ematix_probe.Scan.Delivered.{evaluate_batches, evaluate-evaluate_batches}
use ematix_probe.Sources.Parquet.{ParquetCrate, ParquetAdapter, parquet_scanner}
use ematix_probe.Sources.Parquet.Adapter.{execute_parquet}
use ematix_probe.Sources.Parquet.Pulls.{
  Yields, Breaks, Opens, broken, streamed, next_batch-Delivers, next_batch-Raises,
  open_reader-Opens,
}

module _ {F : Type 0} (c : Crates F) ⦃fl : Float F⦄ where
  open c use {DataType, Schema, RecordBatch}

  module _ {W File Builder Reader : Type 0}
      (parquet : ParquetCrate W File Builder Reader Schema RecordBatch) where
    pub execute_parquet-Yields :
        (fuel : ℕ) (clock : ℕ → Option ℕ) (plan : ProbePlan F DataType) (adapter : ParquetAdapter)
        (w : W) (r : Reader) (bs : List RecordBatch)
        → length bs < fuel
        → Opens parquet adapter.path w r
        → Yields parquet r bs
        → (execute_parquet c parquet fuel clock plan adapter w).0
          ≡ evaluate_batches c clock (parquet.schema r) bs plan.assertions
    unfolding execute_parquet await_blocking and_then
    execute_parquet-Yields fuel clock plan adapter w r bs more o y =
        rw
          (
            open_reader-Opens F parquet adapter.path w r o,
            execute_parquet,
            await_blocking,
            and_then,
          )
          (evaluate-evaluate_batches c (parquet_scanner F parquet) bs
            (streamed (parquet.schema r) r) fuel clock plan more
            (next_batch-Delivers F parquet (parquet.schema r) r bs y))

    -- With arrow's documented behaviour (IsArrow) and the IEEE 754 facts of IsIeee: where the file
    -- opens as a reader that gives any number of batches of its schema and then an error, or panics,
    -- `execute` of the Parquet adapter raises: a query error with the text of the error, a
    -- connection error with the text of the panic. There is no summary of the batches read before
    -- (with more fuel than there are).
    pub execute_parquet-Breaks :
        (law : IsArrow c) (ieee : IsIeee F) (fuel : ℕ) (clock : ℕ → Option ℕ)
        (plan : ProbePlan F DataType) (adapter : ParquetAdapter) (w : W) (r : Reader)
        (bs : List RecordBatch) (why : String ⊎ String)
        → length bs < fuel
        → Opens parquet adapter.path w r
        → Breaks parquet why r bs
        → HasSchema c law (parquet.schema r) bs
        → (execute_parquet c parquet fuel clock plan adapter w).0 ≡ raised (broken why)
    unfolding execute_parquet await_blocking and_then
    execute_parquet-Breaks law ieee fuel clock plan adapter w r bs why more o y h =
        rw
          (
            open_reader-Opens F parquet adapter.path w r o,
            execute_parquet,
            await_blocking,
            and_then,
          )
          (evaluate-Raises c law ieee (parquet_scanner F parquet) (broken why) fuel clock plan
            (streamed (parquet.schema r) r) bs more
            (next_batch-Raises F parquet (parquet.schema r) why r bs y) h)

    pub execute_parquet-returns :
        (law : IsArrow c) (ieee : IsIeee F) (fuel : ℕ) (clock : ℕ → Option ℕ)
        (plan : ProbePlan F DataType) (adapter : ParquetAdapter) (w : W) (r : Reader)
        (bs : List RecordBatch)
        → length bs < fuel
        → Opens parquet adapter.path w r
        → Yields parquet r bs
        → HasSchema c law (parquet.schema r) bs
        → rows c law bs < 2 ^ 53
        → All (IsSortable c law (parquet.schema r) bs) plan.assertions
        → (results : List (AssertionResult F)) × ((execute_parquet c parquet fuel clock plan adapter
              w).0
            ≡ returned (summarise results))
          × ResultsOf c law clock 0 (parquet.schema r) bs plan.assertions results
    unfolding execute_parquet await_blocking and_then
    execute_parquet-returns law ieee fuel clock plan adapter w r bs more o y h few sortable =
        let (results, e, each) =
          evaluate-returns c law ieee (parquet_scanner F parquet) fuel clock plan
            (streamed (parquet.schema r) r) bs more
            (next_batch-Delivers F parquet (parquet.schema r) r bs y) h few sortable in
        (
          results,
          rw
              (
                open_reader-Opens F parquet adapter.path w r o,
                execute_parquet,
                await_blocking,
                and_then,
              )
              e,
          each,
        )
