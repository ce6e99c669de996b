-- ===== src/Load/Sql.antt =====
-- `PostgresLoadAdapter` of adapters/load/postgres.rs. What it calls of tokio-postgres and
-- deadpool-postgres is a parameter.
pub mod Samples
pub mod Probe
use Prim.Native.String.{◌++◌ as append}
use ematix_probe.Prelude.{ℕ, ℤ, ◌+◌, ◌≡◌, String, Bool, Option, none, some, List, [], ◌∷◌, map, All}
use ematix_probe.Message.{lit, str}
use ematix_probe.Float.{Float}
use ematix_probe.Adapter.{AdapterError, Outcome, returned, raised}
use ematix_probe.Crates.{Result, ok, err}
use ematix_probe.Blocking.{Reply, replied, unwound, relay, map_err}
use ematix_probe.Postgres.Deadpool.{Deadpool}
use ematix_probe.Load.Plan.{LoadMode, PgLoadPlan, LoadQuery, QueryParam, Sample}
use ematix_probe.Load.Scheduler.{Reading}
use ematix_probe.Load.VuPool.{VuPool, Run, started, Reaches, collected}
use ematix_probe.Load.Tasks.{collect_ticks}

-- a value that `ToSql` binds: an `i64`, an `f64`, a text, a Boolean or a null `i32`
pub data SqlValue (F : Type 0) : Type 0 where
  int8 : ℤ → SqlValue F
  float8 : F → SqlValue F
  text : String → SqlValue F
  bool : Bool → SqlValue F
  null_int4 : SqlValue F

-- In the task of a tick: `pool.get()`, and of a client `prepare` and `query`; and how long the task
-- took. Tasks run at the same time, so each has its own answers.
pub record SqlClient (F DbPool Client Statement : Type 0) : Type 0 where
  pub get : DbPool → ℕ → Reply (Result String Client)
  pub prepare : Client → ℕ → String → Reply (Result String Statement)
  pub query : Client → ℕ → Statement → List (SqlValue F) → Reply (Result String Unit)
  pub elapsed : ℕ → ℕ

-- `?` in `execute_once`
infixl 5 ◌>>=◌
abbrev pub ◌>>=◌ :
    {A B : Type 0}
    → Reply (Result String A)
    → (A → Reply (Result String B))
    → Reply (Result String B)
replied (ok a) >>= k = k a
replied (err e) >>= k = replied (err e)
unwound t >>= k = unwound t

-- `.map_err(|e| format!("…: {e}"))`
abbrev pub labelled : {A : Type 0} → String → Reply (Result String A) → Reply (Result String A)
labelled label = relay (map_err (append label))

module _ {F : Type 0} where
  unfoldable pub bind_value : QueryParam F → SqlValue F
  bind_value (QueryParam.int i) = SqlValue.int8 i
  bind_value (QueryParam.float f) = SqlValue.float8 f
  bind_value (QueryParam.text s) = SqlValue.text s
  bind_value (QueryParam.bool b) = SqlValue.bool b
  bind_value QueryParam.null = SqlValue.null_int4

  unfoldable pub bind_owned : List (QueryParam F) → List (SqlValue F)
  unfolding bind_value
  bind_owned = map bind_value

module _ {F Config DbPool : Type 0} (deadpool : Deadpool Config DbPool) where
  unfoldable pub build_pool : String → Result (AdapterError F) DbPool
  unfolding map_err
  build_pool dsn = elim (deadpool.from_str dsn) [
    | err e ↦ err (AdapterError.config (lit "invalid postgres URL: " ∷ str e ∷ []))
    | ok config ↦
        map_err (λ e. AdapterError.connection (lit "pool builder failed: " ∷ str e ∷ []))
          (deadpool.build config)
  ]

-- the match of `run_query_to_sample`
unfoldable pub to_sample : ℕ → ℕ → Result String Unit → Sample
to_sample tick_index latency (ok done) = record {
  tick_index = tick_index;
  latency = latency;
  status_code = some 200;
  error = none;
}
to_sample tick_index latency (err e) = record {
  tick_index = tick_index;
  latency = latency;
  status_code = none;
  error = some e;
}

module _ {F DbPool Client Statement : Type 0} (sql : SqlClient F DbPool Client Statement) where
  -- in the task of a tick
  unfoldable pub execute_once : DbPool → LoadQuery F → ℕ → Reply (Result String Unit)
  unfolding relay map_err bind_owned
  execute_once pool query tick = do
    client ← labelled "acquire: " (sql.get pool tick)
    stmt ← labelled "prepare: " (sql.prepare client tick query.sql)
    labelled "query: " (sql.query client tick stmt (bind_owned query.params))

  unfoldable pub run_query_to_sample : DbPool → LoadQuery F → ℕ → Reply Sample
  unfolding relay to_sample execute_once
  run_query_to_sample pool query tick_index =
      relay (to_sample tick_index (sql.elapsed tick_index)) (execute_once pool query tick_index)

  -- `collect_virtual_users` may return these samples, as in adapters/load/http.rs.
  abbrev pub CollectsUsers : DbPool → LoadQuery F → ℕ → ℕ → List Sample → Type 0
  CollectsUsers db query count duration all =
      let pool : VuPool = record { count = count; duration = duration } in
      (t : ℕ) × (n : ℕ) × (q : Run) × Reaches (t + duration) n (started pool t) q
      × (collected pool q ≡ some all)
      × All (λ s. run_query_to_sample db query s.tick_index ≡ replied s) all

  module _ ⦃fl : Float F⦄ where
    unfoldable pub collect_constant_rate :
        DbPool → LoadQuery F → List Reading → F → ℕ → Outcome F (List Sample)
    unfolding collect_ticks run_query_to_sample
    collect_constant_rate pool query readings rps duration =
        collect_ticks (run_query_to_sample pool query) readings rps duration

    -- the match on the mode in `collect_samples`
    abbrev pub CollectsMode :
        DbPool → PgLoadPlan F → List Reading → LoadMode F → Outcome F (List Sample) → Type 0
    CollectsMode pool plan readings (LoadMode.constant_rate rps) o =
        o ≡ collect_constant_rate pool plan.target.query readings rps plan.duration
    CollectsMode pool plan readings (LoadMode.virtual_users count) o =
        (all : List Sample) × CollectsUsers pool plan.target.query count plan.duration all
        × (o ≡ returned all)

    abbrev pub CollectsPool :
        Result (AdapterError F) DbPool
        → PgLoadPlan F
        → List Reading
        → Outcome F (List Sample)
        → Type 0
    CollectsPool (ok pool) plan readings o = CollectsMode pool plan readings plan.mode o
    CollectsPool (err e) plan readings o = o ≡ raised e

    -- `collect_samples` may come to this, when the clock shows the readings
    abbrev pub Collects :
        {Config : Type 0}
        → Deadpool Config DbPool
        → PgLoadPlan F
        → List Reading
        → Outcome F (List Sample)
        → Type 0
    Collects deadpool plan readings o =
        CollectsPool (build_pool deadpool plan.target.dsn) plan readings o
