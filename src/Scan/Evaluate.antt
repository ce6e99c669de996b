-- ===== src/Scan/Evaluate.antt =====
-- `trait Scanner` and `evaluate` of engine/scan.rs, and `VecScanner` of adapters/data/duckdb.rs.
use ematix_probe.Prelude.{ℕ, zero, suc, Option, none, some, List, [], ◌∷◌, map}
use ematix_probe.Float.{Float}
use ematix_probe.Adapter.{AdapterError, Outcome, returned, raised, panicked, stopped}
use ematix_probe.Data.{ProbePlan, AssertionResult, RunSummary, summarise}
use ematix_probe.Crates.{Result, ok, err, Crates}
use ematix_probe.Scan.Acc.{Acc}
use ematix_probe.Scan.Build.{build}
use ematix_probe.Scan.Update.{update, ◌>>=◌}
use ematix_probe.Scan.Finalize.{finalize}

-- A scanner with state of type `S`: the schema, and a pull that changes the state.
pub record Scanner (S Schema Batch F : Type 0) : Type 0 where
  pub schema : S → Schema
  pub next_batch : S → Result (AdapterError F) (Option Batch) × S

module _ {F : Type 0} (c : Crates F) ⦃fl : Float F⦄ where
  open c use {DataType, Schema, RecordBatch, Regex}

  -- `for acc in &mut accs { acc.update(&batch) }`
  unfoldable pub update_all : List (Acc F Regex) → RecordBatch → Option (List (Acc F Regex))
  update_all [] batch = some []
  update_all (acc ∷ accs) batch = do
    acc' ← update c acc batch
    accs' ← update_all accs batch
    some (acc' ∷ accs')

  -- the accumulators finalized from index `i` on, each with the clock as it reads then
  unfoldable pub finalize_all :
      (ℕ → Option ℕ) → ℕ → List (Acc F Regex) → Option (List (AssertionResult F))
  finalize_all clock i [] = some []
  finalize_all clock i (acc ∷ accs) = do
    result ← finalize (clock i) acc i
    results ← finalize_all clock (suc i) accs
    some (result ∷ results)

  -- the end of `evaluate`, on what the loop left
  unfoldable pub conclude :
      (ℕ → Option ℕ) → Outcome F (List (Acc F Regex)) → Outcome F (RunSummary F)
  conclude clock (returned accs) = elim (finalize_all clock 0 accs) [
    | none ↦ panicked
    | some results ↦ returned (summarise results)
  ]
  conclude clock (raised e) = raised e
  conclude clock panicked = panicked
  conclude clock stopped = stopped

  module _ {S : Type 0} (scanner : Scanner S Schema RecordBatch F) where
    open scanner use {schema, next_batch}

    -- `while let Some(batch) = scanner.next_batch().await?`
    unfoldable pub scan_loop : ℕ → S → List (Acc F Regex) → Outcome F (List (Acc F Regex))
    scan_loop zero s accs = stopped
    scan_loop (suc fuel) s accs = elim (next_batch s).0 [
      | err e ↦ raised e
      | ok none ↦ returned accs
      | ok (some batch) ↦ elim (update_all accs batch) [
        | none ↦ panicked
        | some accs' ↦ scan_loop fuel (next_batch s).1 accs'
      ]
    ]

    unfoldable pub evaluate :
        ℕ → (ℕ → Option ℕ) → ProbePlan F DataType → S → Outcome F (RunSummary F)
    unfolding scan_loop conclude
    evaluate fuel clock plan s =
        conclude clock (scan_loop fuel s (map (λ a. build c a (schema s)) plan.assertions))

-- `VecScanner`: the batches that are left, all of one schema
pub record VecScanner (Schema Batch : Type 0) : Type 0 where
  pub schema : Schema
  pub iter : List Batch

module _ {F Schema Batch : Type 0} where
  -- `Ok(self.iter.next())`
  abbrev pub vec_pull :
      Schema → List Batch → Result (AdapterError F) (Option Batch) × VecScanner Schema Batch
  vec_pull sch [] = (ok none, record { schema = sch; iter = [] })
  vec_pull sch (b ∷ bs) = (ok (some b), record { schema = sch; iter = bs })

  abbrev pub vec_scanner : Scanner (VecScanner Schema Batch) Schema Batch F
  vec_scanner = record { schema = λ s. s.schema; next_batch = λ s. vec_pull s.schema s.iter }
