-- ===== src/Load/Sql/Samples.antt =====
-- The task of a tick of adapters/load/postgres.rs: what its three calls answer, and the sample.
use Prim.Native.String.{◌++◌ as append}
use ematix_probe.Prelude.{ℕ, ◌≡◌, refl, String, List}
use ematix_probe.Crates.{Result, ok, err}
use ematix_probe.Blocking.{replied, relay, map_err}
use ematix_probe.Load.Plan.{LoadQuery, Sample}
use ematix_probe.Load.Tasks.Ascending.{from_to}
use ematix_probe.Load.Sql.{SqlClient, bind_owned, to_sample, execute_once, run_query_to_sample}

pub to_sample-tick_index :
    (i latency : ℕ) (answer : Result String Unit) → (to_sample i latency answer).tick_index ≡ i
unfolding to_sample
to_sample-tick_index i latency (ok done) = refl
to_sample-tick_index i latency (err e) = refl

module _ {F DbPool Client Statement : Type 0} (sql : SqlClient F DbPool Client Statement)
    (pool : DbPool) (query : LoadQuery F) where
  -- What the query of a tick comes to: no client, a statement that cannot be prepared, one that fails
  -- on the bound parameters, or a round trip. No call panics.
  pub data Answers (i : ℕ) (answer : Result String Unit) : Type 0 where
    no_client :
        (e : String)
        → sql.get pool i ≡ replied (err e)
        → answer ≡ err (append "acquire: " e)
        → Answers i answer
    not_prepared :
        (client : Client) (e : String)
        → sql.get pool i ≡ replied (ok client)
        → sql.prepare client i query.sql ≡ replied (err e)
        → answer ≡ err (append "prepare: " e)
        → Answers i answer
    not_run :
        (client : Client) (stmt : Statement) (e : String)
        → sql.get pool i ≡ replied (ok client)
        → sql.prepare client i query.sql ≡ replied (ok stmt)
        → sql.query client i stmt (bind_owned query.params) ≡ replied (err e)
        → answer ≡ err (append "query: " e)
        → Answers i answer
    round_trip :
        (client : Client) (stmt : Statement)
        → sql.get pool i ≡ replied (ok client)
        → sql.prepare client i query.sql ≡ replied (ok stmt)
        → sql.query client i stmt (bind_owned query.params) ≡ replied (ok tt)
        → answer ≡ ok tt
        → Answers i answer

  execute_once-Answers :
      (i : ℕ) (answer : Result String Unit)
      → Answers i answer
      → execute_once sql pool query i ≡ replied answer
  unfolding execute_once relay map_err
  execute_once-Answers i answer (no_client e g a) = rw (a, g, execute_once, relay, map_err) refl
  execute_once-Answers i answer (not_prepared client e g p a) =
      rw (a, g, execute_once, relay, map_err, p) refl
  execute_once-Answers i answer (not_run client stmt e g p q a) =
      rw (a, g, execute_once, relay, map_err, p, q) refl
  execute_once-Answers i answer (round_trip client stmt g p q a) =
      rw (a, g, execute_once, relay, map_err, p, q) refl

  -- the samples of the ticks `i .. i + n`, by what their queries came to
  abbrev pub queried : (ℕ → Result String Unit) → ℕ → ℕ → List Sample
  queried answer i n = from_to i n (λ j. to_sample j (sql.elapsed j) (answer j))

  pub run_query_to_sample-Answers :
      (i : ℕ) (answer : Result String Unit)
      → Answers i answer
      → run_query_to_sample sql pool query i ≡ replied (to_sample i (sql.elapsed i) answer)
  unfolding run_query_to_sample relay
  run_query_to_sample-Answers i answer h =
      rw (execute_once-Answers i answer h, run_query_to_sample, relay) refl
