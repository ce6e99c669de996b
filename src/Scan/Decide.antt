-- ===== src/Scan/Decide.antt =====
-- What an assertion of the scan path decides about the cells that it read.
pub mod Unique
pub mod Counts
pub mod Bounds
pub mod Freshness
pub mod Percentile
pub mod Fields
pub mod Keyed
pub use ematix_probe.Data.Verdicts.{Decides}
use ematix_probe.Prelude.{
  ℕ, ◌≡◌, ◌⊎◌, inl, inr, refl, Option, some, ◌↔◌, List, arith, eqb, if◌then◌else◌,
}
use ematix_probe.Float.{Float}
use ematix_probe.Message.{Message}
use ematix_probe.Data.{Verdict, Assertion, AssertionResult}
use ematix_probe.Crates.{Crates}
use ematix_probe.Scan.Acc.{Acc}
use ematix_probe.Scan.Build.{build}
use ematix_probe.Scan.Update.{◌>>=◌}
use ematix_probe.Scan.Finalize.{pass, fail, finalize, finalize_count}
use ematix_probe.Scan.Run.{run, outcome_of}

module _ {F : Type 0} where
  pub finalize_count-Decides :
      (i n : ℕ) (msg : Message F) → Decides i (finalize_count i n msg) (n ≡ 0)
  unfolding finalize_count
  finalize_count-Decides i n msg = ground arith

  pub Decides-of_iff {ℓ κ} :
      {P : Type ℓ} {Q : Type κ} (i : ℕ) (r : AssertionResult F)
      → (P → Q)
      → (Q → P)
      → Decides i r P
      → Decides i r Q
  Decides-of_iff i r f g (e, inl (p, x)) = (e, inl (p, f x))
  Decides-of_iff i r f g (e, inr (p, x)) = (e, inr (p, λ q. x (g q)))

module _ {F : Type 0} (c : Crates F) ⦃fl : Float F⦄ where
  open c use {DataType, Schema, RecordBatch, Regex}

  pub outcome_of-run :
      (clock : Option ℕ) (i : ℕ) (a : Assertion F DataType) (schema : Schema)
      (batches : List RecordBatch) {start end : Acc F Regex} {r : AssertionResult F}
      → build c a schema ≡ start
      → run c batches start ≡ some end
      → finalize clock end i ≡ some r
      → outcome_of c clock i a schema batches ≡ some r
  unfolding outcome_of
  outcome_of-run clock i a schema batches built ran done = rw (built, ran, ◌>>=◌) done

  -- The assertions that pass at a count of 0.
  pub outcome_of-count {ℓ} :
      {P : Type ℓ} (clock : Option ℕ) (i : ℕ) (a : Assertion F DataType) (schema : Schema)
      (batches : List RecordBatch) {start end : Acc F Regex} (n : ℕ) (msg : Message F)
      → build c a schema ≡ start
      → run c batches start ≡ some end
      → finalize clock end i ≡ some (finalize_count i n msg)
      → (n ≡ 0) ↔ P
      → (r : AssertionResult F) × (outcome_of c clock i a schema batches ≡ some r) × Decides i r P
  outcome_of-count clock i a schema batches n msg built ran done iff = (
    finalize_count i n msg,
    outcome_of-run clock i a schema batches built ran done,
    Decides-of_iff i (finalize_count i n msg) iff.0 iff.1 (finalize_count-Decides i n msg),
  )
