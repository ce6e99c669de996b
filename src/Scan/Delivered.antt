-- ===== src/Scan/Delivered.antt =====
-- `evaluate` of engine/scan.rs depends on a scanner only by its schema and the batches it delivers.
use ematix_probe.Prelude.{
  ℕ, zero, suc, ◌<◌, ◌≡◌, refl, Option, none, some, inl, inr, List, [], ◌∷◌, arith, map, length,
  Option-cases,
}
use ematix_probe.Float.{Float}
use ematix_probe.Adapter.{Outcome, returned, panicked}
use ematix_probe.Data.{Assertion, ProbePlan, RunSummary}
use ematix_probe.Crates.{Crates}
use ematix_probe.Scan.Acc.{Acc}
use ematix_probe.Scan.Build.{build}
use ematix_probe.Scan.Evaluate.{Scanner, update_all, scan_loop, conclude, evaluate}
use ematix_probe.Scan.Total.{Delivers}

module _ {F : Type 0} (c : Crates F) ⦃fl : Float F⦄ where
  open c use {DataType, Schema, RecordBatch, Regex}

  -- the accumulators updated with one batch after the other; `none` is a panic
  unfoldable pub update_batches :
      List RecordBatch → List (Acc F Regex) → Option (List (Acc F Regex))
  update_batches [] accs = some accs
  update_batches (b ∷ bs) accs = elim (update_all c accs b) [
    | none ↦ none
    | some accs' ↦ update_batches bs accs'
  ]

  abbrev or_panic : Option (List (Acc F Regex)) → Outcome F (List (Acc F Regex))
  or_panic none = panicked
  or_panic (some accs) = returned accs

  -- a plan's assertions evaluated on batches that are at hand
  abbrev pub evaluate_batches :
      (ℕ → Option ℕ)
      → Schema
      → List RecordBatch
      → List (Assertion F DataType)
      → Outcome F (RunSummary F)
  evaluate_batches clock sch bs assertions =
      conclude c clock (or_panic (update_batches bs (map (λ a. build c a sch) assertions)))

  module _ {S : Type 0} (scanner : Scanner S Schema RecordBatch F) where
    scan_loop-update_batches :
        (bs : List RecordBatch) (s : S) (fuel : ℕ) (accs : List (Acc F Regex))
        → length bs < fuel
        → Delivers scanner s bs
        → scan_loop c scanner fuel s accs ≡ or_panic (update_batches bs accs)
    unfolding scan_loop update_batches
    scan_loop-update_batches bs s zero accs more d = absurd (omega arith)
    scan_loop-update_batches [] s (suc fuel) accs more d = rw (d, scan_loop) refl
    scan_loop-update_batches (b ∷ bs) s (suc fuel) accs more (d, ds) =
        rw (d, scan_loop)
          (elim (Option-cases (update_all c accs b)) [
            | inl e ↦ rw (e, scan_loop, update_batches) refl
            | inr (accs', e) ↦
                rw (e, scan_loop, update_batches)
                  (scan_loop-update_batches bs (scanner.next_batch s).1 fuel accs' (omega arith) ds)
          ])

    pub evaluate-evaluate_batches :
        (bs : List RecordBatch) (s : S) (fuel : ℕ) (clock : ℕ → Option ℕ)
        (plan : ProbePlan F DataType)
        → length bs < fuel
        → Delivers scanner s bs
        → evaluate c scanner fuel clock plan s
          ≡ evaluate_batches clock (scanner.schema s) bs plan.assertions
    unfolding evaluate
    evaluate-evaluate_batches bs s fuel clock plan more d =
        rw
          (scan_loop-update_batches bs s fuel
            (map (λ a. build c a (scanner.schema s)) plan.assertions) more d)
          refl
