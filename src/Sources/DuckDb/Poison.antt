-- ===== src/Sources/DuckDb/Poison.antt =====
-- The mutex of `DuckDbAdapter` (adapters/data/duckdb.rs) after a panic in the duckdb crate.
use ematix_probe.Prelude.{ℕ, ◌≡◌, refl, String, true, false, Option, [], ◌∷◌}
use ematix_probe.Message.{lit, str}
use ematix_probe.Float.{Float}
use ematix_probe.Adapter.{AdapterError, Outcome, raised, and_then}
use ematix_probe.Crates.{ok, Crates}
use ematix_probe.Blocking.{
  replied, unwound, Mutex, relay, attempt, map_err, infallible, await_blocking, with_lock, resume,
  ◌>>=◌,
}
use ematix_probe.Data.{ProbePlan}
use ematix_probe.Sources.DuckDb.Ident.{qualified_table}
use ematix_probe.Sources.DuckDb.{DuckDb, read_table, execute_setup, execute_duckdb}
use ematix_probe.Sources.DuckDb.Reads.{prepared}

module _ {F Connection Statement Stream Schema Batch : Type 0}
    (db : DuckDb F Connection Statement Stream Schema Batch) where
  -- The crate panics with the text in one of the calls that read a table.
  pub data Panics (qualified : String) (conn : Connection) (t : String) : Type 0 where
    in_prepare :
        (db.prepare (lit "SELECT * FROM " ∷ str qualified ∷ []) conn).0 ≡ unwound t
        → Panics qualified conn t
    in_query :
        (stmt : Statement)
        → (db.prepare (lit "SELECT * FROM " ∷ str qualified ∷ []) conn).0 ≡ replied (ok stmt)
        → (db.query_arrow stmt (prepared db qualified conn)).0 ≡ unwound t
        → Panics qualified conn t
    in_collect :
        (stmt : Statement) (stream : Stream)
        → (db.prepare (lit "SELECT * FROM " ∷ str qualified ∷ []) conn).0 ≡ replied (ok stmt)
        → (db.query_arrow stmt (prepared db qualified conn)).0 ≡ replied (ok stream)
        → (db.collect stream (db.query_arrow stmt (prepared db qualified conn)).1).0 ≡ unwound t
        → Panics qualified conn t

  read_table-Panics :
      (qualified : String) (conn : Connection) (t : String)
      → Panics qualified conn t
      → (read_table db qualified conn).0 ≡ unwound t
  unfolding read_table attempt infallible ◌>>=◌ resume map_err relay
  read_table-Panics qualified conn t (Panics.in_prepare p) =
      rw (p, read_table, attempt, relay, ◌>>=◌, resume) refl
  read_table-Panics qualified conn t (Panics.in_query stmt p q) =
      rw (p, read_table, attempt, ◌>>=◌, resume, map_err)
        (rw (q, ◌>>=◌, resume, attempt, relay) refl)
  read_table-Panics qualified conn t (Panics.in_collect stmt stream p q r) =
      rw (p, read_table, attempt, ◌>>=◌, resume, map_err)
        (rw (q, ◌>>=◌, resume, attempt, map_err) (rw (r, ◌>>=◌, resume, infallible, relay) refl))

-- the error of a call that finds the mutex poisoned
abbrev pub is_poisoned : {F A : Type 0} → Outcome F A
is_poisoned = raised (AdapterError.connection (lit "duckdb mutex poisoned" ∷ []))

module _ {F : Type 0} (c : Crates F) ⦃fl : Float F⦄ where
  open c use {DataType, Schema, RecordBatch}

  module _ {Connection Statement Stream : Type 0}
      (db : DuckDb F Connection Statement Stream Schema RecordBatch) where
    -- Where the mutex is free and the duckdb crate panics while `execute` prepares, runs or collects
    -- its query, `execute` raises a connection error with the panic's text. From then on the adapter
    -- is of no use: any `execute` and any `execute_setup` raises that the mutex is poisoned, and
    -- leaves the connection as it is.
    pub execute-poisons :
        (clock : ℕ → Option ℕ) (plan : ProbePlan F DataType) (m : Mutex Connection) (t : String)
        → m.poisoned ≡ false
        → Panics db (qualified_table plan.schema plan.table) m.inner t
        → (m' : Mutex Connection) × (execute_duckdb c db clock plan m
            ≡ (raised (AdapterError.connection (lit "spawn_blocking join: " ∷ str t ∷ [])), m'))
          × ((clock' : ℕ → Option ℕ) (plan' : ProbePlan F DataType)
              → execute_duckdb c db clock' plan' m' ≡ (is_poisoned, m'))
          × ((sql : String) → execute_setup db sql m' ≡ (is_poisoned, m'))
    unfolding execute_duckdb execute_setup with_lock await_blocking and_then
    execute-poisons clock plan m t free p =
        let read = read_table-Panics db (qualified_table plan.schema plan.table) m.inner t p in
        (
          record {
            poisoned = true;
            inner = (read_table db (qualified_table plan.schema plan.table) m.inner).1;
          },
          rw (free, execute_duckdb, with_lock, read, await_blocking, and_then) refl,
          (λ clock' plan'. refl),
          λ sql. refl,
        )
