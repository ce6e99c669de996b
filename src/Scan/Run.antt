-- ===== src/Scan/Run.antt =====
-- One accumulator over a sequence of batches, in terms of the cells that it reads from them all.
use ematix_probe.Prelude.{
  ℕ, ◌≡◌, refl, map, sym, ap, ◌∙◌, Option, some, List, [], ◌∷◌, ◌++◌, arith, Option-cases, inl, inr,
}
use ematix_probe.Float.{Float}
use ematix_probe.Data.{Assertion, AssertionResult}
use ematix_probe.Crates.{Crates}
use ematix_probe.Scan.Acc.{Acc}
use ematix_probe.Scan.Build.{build}
use ematix_probe.Scan.Update.{update, ◌>>=◌}
use ematix_probe.Scan.Finalize.{finalize}

-- What is read from all the batches, in their order; `none` where a read panics.
unfoldable pub gather {ℓ} :
    {B : Type 0} {X : Type ℓ} → (B → Option (List X)) → List B → Option (List X)
gather read [] = some []
gather read (b ∷ batches) = do xs ← read b; rest ← gather read batches; some (xs ++ rest)

module _ {F : Type 0} (c : Crates F) ⦃fl : Float F⦄ where
  open c use {DataType, Schema, RecordBatch, Regex}

  unfoldable pub run : List RecordBatch → Acc F Regex → Option (Acc F Regex)
  run [] acc = some acc
  run (b ∷ batches) acc = do acc' ← update c acc b; run batches acc'

  -- The whole life of one assertion: built from the schema, fed the batches, finalized.
  unfoldable pub outcome_of :
      Option ℕ → ℕ → Assertion F DataType → Schema → List RecordBatch → Option (AssertionResult F)
  outcome_of clock i a schema batches = do
    acc ← run batches (build c a schema)
    finalize clock acc i

pub gather-singles :
    {B : Type 0} (f : B → ℕ) (bs : List B) → gather (λ b. some (f b ∷ [])) bs ≡ some (map f bs)
unfolding gather
gather-singles f [] = refl
gather-singles f (b ∷ bs) = rw (gather-singles f bs) refl

pub gather-cons :
    {B X : Type 0} (read : B → Option (List X)) (b : B) (batches : List B) {xs : List X}
    → gather read (b ∷ batches) ≡ some xs
    → (ys zs : List X) × (read b ≡ some ys) × (gather read batches ≡ some zs) × (xs ≡ ys ++ zs)
unfolding gather
gather-cons read b batches h = elim (Option-cases (read b)) [
  | inl e ↦ ground arith
  | inr (ys, e) ↦ elim (Option-cases (gather read batches)) [
    | inl f ↦ ground arith
    | inr (zs, f) ↦ (ys, zs, e, f, ground arith)
  ]
]

-- An arm of `update` that reads cells and steps a state: the state is `mk s`, a batch gives the
-- cells `read b`, and the new state is `step`.
pub record IsArm {F B X St : Type 0} {R : Type 0} (step_acc : Acc F R → B → Option (Acc F R))
    (mk : St → Acc F R) (read : B → Option (List X)) (step : List X → St → St) (P : St → Type 0)
    : Type 0 where
  pub kept : (xs : List X) (s : St) → P s → P (step xs s)
  pub step-nil : (s : St) → P s → step [] s ≡ s
  pub step-append : (xs ys : List X) (s : St) → P s → step (xs ++ ys) s ≡ step ys (step xs s)
  pub arm :
      (b : B) (xs : List X) (s : St)
      → P s
      → read b ≡ some xs
      → step_acc (mk s) b ≡ some (mk (step xs s))

module _ {F : Type 0} (c : Crates F) ⦃fl : Float F⦄ where
  open c use {RecordBatch, Regex}

  -- The run of such an arm is one step over the cells of all batches.
  pub run-step :
      {X St : Type 0} {mk : St → Acc F Regex} {read : RecordBatch → Option (List X)}
      {step : List X → St → St} {P : St → Type 0}
      → IsArm (update c) mk read step P
      → (batches : List RecordBatch) (xs : List X) (s : St) → P s
      → gather read batches ≡ some xs
      → run c batches (mk s) ≡ some (mk (step xs s))
  unfolding run gather
  run-step {mk} {step} a [] xs s p h =
      let e : [] ≡ xs = cc in ap (λ t. some (mk t)) (sym (a.step-nil s p) ∙ ap (λ l. step l s) e)
  run-step {mk} {read} {step} a (b ∷ batches) xs s p h =
      let (ys, zs, first, rest, e) = gather-cons read b batches h in
      rw (a.arm b ys s p first) (
        run-step a batches zs (step ys s) (a.kept ys s p) rest
        ∙ ap (λ t. some (mk t)) (sym (a.step-append ys zs s p) ∙ ap (λ l. step l s) (sym e)))
