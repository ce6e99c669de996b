-- ===== src/Load/Plan.antt =====
-- The plans, targets and samples of engine/load.rs and engine/load/postgres.rs. A `Duration` is in
-- nanoseconds.
use ematix_probe.Prelude.{ℕ, ℤ, String, Bool, Option, none, some, List, [], ◌∷◌, ◌++◌}

pub record HttpTarget : Type 0 where
  pub method : String
  pub url : String

-- `HttpTarget::get`
unfoldable pub get : String → HttpTarget
get url = record { method = "GET"; url = url }

pub data LoadAssertion (F : Type 0) : Type 0 where
  p99_under : (metric : String) (threshold_ms : F) → LoadAssertion F
  error_rate_below : (threshold : F) → LoadAssertion F
  throughput_above : (threshold_rps : F) → LoadAssertion F
  status_code_in : (allowed : List ℕ) → LoadAssertion F

pub data LoadMode (F : Type 0) : Type 0 where
  constant_rate : (rps : F) → LoadMode F
  virtual_users : (count : ℕ) → LoadMode F

pub record LoadPlan (F : Type 0) : Type 0 where
  pub target : HttpTarget
  pub duration : ℕ
  pub mode : LoadMode F
  pub warmup : ℕ
  pub assertions : List (LoadAssertion F)

pub record Sample : Type 0 where
  pub tick_index : ℕ
  pub latency : ℕ
  pub status_code : Option ℕ
  pub error : Option String

-- `trait LoadProfile`
pub record LoadProfile (F P : Type 0) : Type 0 where
  pub duration : P → ℕ
  pub warmup : P → ℕ
  pub mode : P → LoadMode F
  pub assertions : P → List (LoadAssertion F)

pub data QueryParam (F : Type 0) : Type 0 where
  int : ℤ → QueryParam F
  float : F → QueryParam F
  text : String → QueryParam F
  bool : Bool → QueryParam F
  null : QueryParam F

pub record LoadQuery (F : Type 0) : Type 0 where
  pub sql : String
  pub params : List (QueryParam F)

pub record PostgresTarget (F : Type 0) : Type 0 where
  pub dsn : String
  pub query : LoadQuery F

pub record PgLoadPlan (F : Type 0) : Type 0 where
  pub target : PostgresTarget F
  pub duration : ℕ
  pub mode : LoadMode F
  pub warmup : ℕ
  pub assertions : List (LoadAssertion F)

module _ {F : Type 0} where
  -- `LoadProfile::nominal_rps`
  abbrev pub nominal_rps : LoadMode F → Option F
  nominal_rps (LoadMode.constant_rate rps) = some rps
  nominal_rps (LoadMode.virtual_users count) = none

  instance abbrev pub load_plan_profile : LoadProfile F (LoadPlan F)
  load_plan_profile = record {
    duration = λ p. p.duration;
    warmup = λ p. p.warmup;
    mode = λ p. p.mode;
    assertions = λ p. p.assertions;
  }

  instance abbrev pub pg_load_plan_profile : LoadProfile F (PgLoadPlan F)
  pg_load_plan_profile = record {
    duration = λ p. p.duration;
    warmup = λ p. p.warmup;
    mode = λ p. p.mode;
    assertions = λ p. p.assertions;
  }

  -- `LoadQuery::new` and `LoadQuery::param`
  unfoldable pub new_query : String → LoadQuery F
  new_query sql = record { sql = sql; params = [] }

  unfoldable pub param : LoadQuery F → QueryParam F → LoadQuery F
  param q p = record q { params = q.params ++ p ∷ [] }

  -- `LoadPlan::nominal_rps`
  unfoldable pub plan_nominal_rps : LoadPlan F → Option F
  plan_nominal_rps plan = nominal_rps plan.mode

  -- `PostgresTarget::new`
  unfoldable pub new_target : String → LoadQuery F → PostgresTarget F
  new_target dsn query = record { dsn = dsn; query = query }
