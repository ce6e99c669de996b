-- ===== src/Lib.antt =====
-- ematix-probe: data-quality probes and load probes.
--
-- The program has two halves, both in crates/ematix-probe-core/src, and Python bindings. A data
-- probe is a list of assertions on a table. The scan path (engine/scan.rs) builds an accumulator
-- for each assertion from the schema, feeds it every Arrow batch of a scanner, and turns it into
-- a result; the results reduce to one verdict (engine/data.rs). A load probe fires requests at
-- ticks of a scheduler (engine/load/scheduler.rs), gathers a sample for each, and judges the
-- samples (engine/load.rs).
--
-- Data models engine/data.rs; Adapter the errors of adapters/data.rs and what a call comes to.
-- Scan models engine/scan.rs and the scanner of adapters/data/duckdb.rs: Acc is the enum `Acc`,
-- Build, Update and Finalize are the three methods with one function for each arm
-- (`build_between`, `update_between`, `finalize_freshness`), Cells the loops over the cells of a
-- column, Evaluate the function `evaluate` and the trait `Scanner`. The other modules of Scan
-- hold proofs: Decide what each assertion decides about the cells read, Errors the assertions
-- that are refused (Faults: what can be wrong with one, as a data type), Conform why no batch of
-- the schema makes an accumulator panic, Total the whole of `evaluate`, Order the same rows in
-- another order or in other batches (Rearranges: what each assertion reads is the same up to
-- order).
--
-- Call and Blocking are how the adapters call: a state with errors, a panic of another crate, a
-- closure on tokio's blocking pool and a mutex that such a panic poisons. Sources models the
-- data adapters on the scan path: DuckDb is adapters/data/duckdb.rs, Parquet is
-- adapters/data/parquet.rs with its streaming scanner, S3 is adapters/data/s3_parquet.rs, which
-- downloads to a temporary file and scans that. Scan evaluates what their scanners deliver;
-- Sources.Agreement compares two of them.
--
-- Load.Plan and Load.Evaluate model engine/load.rs and engine/load/postgres.rs. Load.Scheduler
-- is the constant-rate scheduler of engine/load/scheduler.rs, and Load.VuPool its virtual users,
-- whose tasks interleave: a step relation, with steps for the tasks and for the clock. Load.Http
-- and Load.Sql are adapters/load/http.rs and adapters/load/postgres.rs, which turn ticks into
-- requests and requests into samples; Load.Tasks is the collection of samples tick by tick that
-- they share. What the modes of `collect_samples` may come to is a predicate, Collects, since
-- virtual users interleave. Load.Http.Probe and Load.Sql.Probe put the ticks, the requests and
-- `evaluate_load` together, Load.VuPool.Judged the virtual users and `evaluate_load`;
-- Load.Tasks.Degenerate is what happens at a rate without a period or with a period of 0.
--
-- Postgres models adapters/data/postgres.rs: Connect the validated connection, Ident the quoting
-- of names, Checks and Execute the queries of each assertion and the loop over them, on a pool
-- (Pool) with a state. Its module Reading is how SQL reads a quoted name; Tables is a table as
-- rows of cells, with what PostgreSQL documents of `count(*)` over each query as hypotheses, and
-- Meaning what the checks decide about it. Cells, Shown and Agreement compare it with the scan
-- path: Shows is a table and Arrow batches that show the same cells. Python models
-- crates/ematix-probe-py/src/lib.rs: the classes and factories, in Module what `_core` adds, and
-- in Probes the functions that run a probe, each an adapter's `open` and `execute` with the
-- error turned into a `RuntimeError`.
--
-- `none` of an Option result is a panic, and Outcome tells a return from an error, a panic and a
-- loop without fuel. The fuel of `scan_loop` bounds the batches pulled: one more than there are
-- is enough. The DuckDB adapter has all batches at hand and takes that fuel itself; the Parquet
-- and S3 adapters take it as an argument. `ticks` takes a list of what the clock shows: one more
-- reading than there are ticks is enough. Counters are u64 and wrap modulo 2^64, row counts and
-- ages are i64; where a theorem needs that nothing wraps, it says so. A `Duration` or an
-- `Instant` is a number of nanoseconds, of any size: the panic of `Instant + Duration` on
-- overflow, at extreme rates or durations, is outside the model.
--
-- The percentile arm sorts by `partial_cmp(..).unwrap_or(Equal)`. That is a total order unless a
-- value is a NaN; then `sort_by` may panic (since Rust 1.81), and its result is not specified.
-- `sort_floats` is an insertion sort on values without a NaN, and on others the parameter
-- `sort_with_nan` of Float, whose `none` is that panic. The sort of the p99 evaluator is over
-- latencies of Durations, where there is no NaN. In Load.VuPool the future `work(idx)` is taken
-- to resolve or to panic: an iteration can always take its last step.
--
-- Parameters: arrow and the regex crate are the record Crates, with arrow's documented behaviour
-- in Crates.Laws; `f64` is the record Float, with the facts of IEEE 754 that are used in IsIeee.
-- The duckdb, parquet, object_store, tempfile, reqwest, deadpool and tokio-postgres crates are
-- the records DuckDb, ParquetCrate, ObjectStore, TempFiles, Reqwest, Deadpool, Pool and
-- SqlClient, one field for each call. The texts of messages are lists of the pieces that
-- `format!` is given (Message). Examples has concrete instances of them.
--
-- Not modelled: how a database evaluates a query (what the counts mean is the hypothesis
-- HoldsTable, one law for each query text), the derived Debug output (two of the `__repr__`),
-- the command line, which prints a version, and the example programs. A blocking task is not
-- cancelled while it is awaited.
pub mod Prelude
pub mod Message
pub mod Float
pub mod Data
pub mod Adapter
pub mod Call
pub mod Blocking
pub mod Sources
pub mod Crates
pub mod Scan
pub mod Load
pub mod Postgres
pub mod Python
pub mod Examples
