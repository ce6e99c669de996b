-- ===== src/Scan/Total/Runs.antt =====
-- `scan_loop` of engine/scan.rs over a scanner that delivers batches of its schema.
use native.Mathlib.Nat.{add-zero, add_assoc}
use ematix_probe.Prelude.{
  ℕ, zero, suc, ◌+◌, ◌<◌, ◌≡◌, refl, none, some, List, [], ◌∷◌, arith, length, All,
}
use ematix_probe.Float.{Float}
use ematix_probe.Adapter.{AdapterError, returned, raised}
use ematix_probe.Crates.{ok, err, Crates}
use ematix_probe.Crates.Laws.{IsArrow}
use ematix_probe.Scan.Acc.{Acc}
use ematix_probe.Scan.Update.{◌>>=◌, update}
use ematix_probe.Scan.Evaluate.{Scanner, update_all, scan_loop}
use ematix_probe.Scan.Run.{run}
use ematix_probe.Scan.Conform.{Fits}
use ematix_probe.Scan.Conform.Updates.{Steps, update-Fits}

module _ {F S Schema Batch : Type 0} (scanner : Scanner S Schema Batch F) where
  -- From the state on, the scanner delivers these batches and then ends; or then raises.
  abbrev pub Delivers : S → List Batch → Type 0
  Delivers s [] = (scanner.next_batch s).0 ≡ ok none
  Delivers s (b ∷ bs) =
      ((scanner.next_batch s).0 ≡ ok (some b)) × Delivers (scanner.next_batch s).1 bs

  abbrev pub Raises : AdapterError F → S → List Batch → Type 0
  Raises e s [] = (scanner.next_batch s).0 ≡ err e
  Raises e s (b ∷ bs) =
      ((scanner.next_batch s).0 ≡ ok (some b)) × Raises e (scanner.next_batch s).1 bs

module _ {F : Type 0} (c : Crates F) (law : IsArrow c) ⦃fl : Float F⦄ where
  open c use {DataType, Schema, RecordBatch, Regex, num_rows}

  -- every batch has the schema
  abbrev pub HasSchema : Schema → List RecordBatch → Type 0
  HasSchema s = All λ b. law.batch_schema b ≡ s

  abbrev pub rows : List RecordBatch → ℕ
  rows [] = 0
  rows (b ∷ bs) = num_rows b + rows bs

  -- the accumulators after one batch, and after all of them, one by one
  abbrev Updated : RecordBatch → List (Acc F Regex) → List (Acc F Regex) → Type 0
  Updated b [] [] = Unit
  Updated b (a ∷ accs) (a' ∷ accs') = (update c a b ≡ some a') × Updated b accs accs'
  Updated b _ _ = ⊥

  abbrev pub Ran : List RecordBatch → List (Acc F Regex) → List (Acc F Regex) → Type 0
  Ran bs [] [] = Unit
  Ran bs (a ∷ accs) (a' ∷ accs') = (run c bs a ≡ some a') × Ran bs accs accs'
  Ran bs _ _ = ⊥

  update_all-Fits :
      (N N' : ℕ → List F → Type 0) (b : RecordBatch) (n : ℕ) (accs : List (Acc F Regex))
      → Steps c law N N' b
      → All (Fits c N (law.batch_schema b) n) accs
      → (accs' : List (Acc F Regex)) × (update_all c accs b ≡ some accs')
        × Updated b accs accs'
        × All (Fits c N' (law.batch_schema b) (n + num_rows b)) accs'
  unfolding update_all
  update_all-Fits N N' b n [] step f = ([], refl, tt, tt)
  update_all-Fits N N' b n (a ∷ accs) step (f, fs) =
      let (a', e, g) = update-Fits c law N N' b n a f step in
      let (accs', es, us, gs) = update_all-Fits N N' b n accs step fs in
      (a' ∷ accs', rw (e, ◌>>=◌, es) refl, (e, us), (g, gs))

  Ran-nil : (accs : List (Acc F Regex)) → Ran [] accs accs
  unfolding run
  Ran-nil [] = tt
  Ran-nil (a ∷ accs) = (refl, Ran-nil accs)

  run-cons :
      (b : RecordBatch) (bs : List RecordBatch) (a a₁ a₂ : Acc F Regex)
      → update c a b ≡ some a₁
      → run c bs a₁ ≡ some a₂
      → run c (b ∷ bs) a ≡ some a₂
  unfolding run
  run-cons b bs a a₁ a₂ u r = rw (u, ◌>>=◌) r

  Ran-cons :
      (b : RecordBatch) (bs : List RecordBatch) (accs accs₁ accs₂ : List (Acc F Regex))
      → Updated b accs accs₁
      → Ran bs accs₁ accs₂
      → Ran (b ∷ bs) accs accs₂
  Ran-cons b bs [] [] [] u r = tt
  Ran-cons b bs (a ∷ accs) (a₁ ∷ accs₁) (a₂ ∷ accs₂) (u, us) (r, rs) =
      (run-cons b bs a a₁ a₂ u r, Ran-cons b bs accs accs₁ accs₂ us rs)
  Ran-cons b bs [] [] (_ ∷ _) u r = absurd r
  Ran-cons b bs [] (_ ∷ _) _ u r = absurd u
  Ran-cons b bs (_ ∷ _) [] _ u r = absurd u
  Ran-cons b bs (_ ∷ _) (_ ∷ _) [] u r = absurd r

  -- Every batch keeps in order what is asked of the values, for the batches after it.
  abbrev pub AllSteps : (List RecordBatch → ℕ → List F → Type 0) → Type 0
  AllSteps N = (b : RecordBatch) (bs : List RecordBatch) → Steps c law (N (b ∷ bs)) (N bs) b

  module _ {S : Type 0} (scanner : Scanner S Schema RecordBatch F)
      (N : List RecordBatch → ℕ → List F → Type 0) (step : AllSteps N) where
    -- Over batches of the schema the loop ends with every accumulator run over all of them.
    pub scan_loop-Delivers :
        (sch : Schema) (bs : List RecordBatch) (s : S) (fuel n : ℕ) (accs : List (Acc F Regex))
        → length bs < fuel
        → Delivers scanner s bs
        → HasSchema sch bs
        → All (Fits c (N bs) sch n) accs
        → (accs' : List (Acc F Regex)) × (scan_loop c scanner fuel s accs ≡ returned accs')
          × Ran bs accs accs'
          × All (Fits c (N []) sch (n + rows bs)) accs'
    unfolding scan_loop
    scan_loop-Delivers sch bs s zero n accs more d h f = absurd (omega arith)
    scan_loop-Delivers sch [] s (suc fuel) n accs more d h f =
        (accs, rw (d, scan_loop) refl, Ran-nil accs, rw add-zero f)
    scan_loop-Delivers sch (b ∷ bs) s (suc fuel) n accs more (d, ds) (e, h) f =
        let (accs₁, u, us, f₁) =
          update_all-Fits (N (b ∷ bs)) (N bs) b n accs (step b bs) (rw e f) in
        let (accs₂, l, rs, f₂) =
          scan_loop-Delivers sch bs (scanner.next_batch s).1 fuel (n + num_rows b) accs₁
            (omega arith) ds h (rw e at f₁) in
        (
          accs₂,
          rw (d, scan_loop) (rw (u, scan_loop) l),
          Ran-cons b bs accs accs₁ accs₂ us rs,
          rw add_assoc at f₂,
        )

    -- If the scanner fails after some batches, so does the loop.
    pub scan_loop-Raises :
        (e : AdapterError F) (sch : Schema) (bs : List RecordBatch) (s : S) (fuel n : ℕ)
        (accs : List (Acc F Regex))
        → length bs < fuel
        → Raises scanner e s bs
        → HasSchema sch bs
        → All (Fits c (N bs) sch n) accs
        → scan_loop c scanner fuel s accs ≡ raised e
    unfolding scan_loop
    scan_loop-Raises e sch bs s zero n accs more d h f = absurd (omega arith)
    scan_loop-Raises e sch [] s (suc fuel) n accs more d h f = rw (d, scan_loop) refl
    scan_loop-Raises e sch (b ∷ bs) s (suc fuel) n accs more (d, ds) (same, h) f =
        let (accs₁, u, us, f₁) =
          update_all-Fits (N (b ∷ bs)) (N bs) b n accs (step b bs) (rw same f) in
        rw (d, scan_loop)
          (rw (u, scan_loop)
            (scan_loop-Raises e sch bs (scanner.next_batch s).1 fuel (n + num_rows b) accs₁
              (omega arith) ds h (rw same at f₁)))
