-- ===== src/Scan/Total.antt =====
-- `evaluate` over a scanner that delivers batches of its schema, against the outcome of each
-- assertion by itself.
mod Runs
pub use Runs.{Delivers, Raises, HasSchema, rows}
use ematix_probe.Prelude.{
  ℕ, suc, ◌+◌, ◌<◌, ◌^◌, ◌≡◌, refl, true, false, Option, some, List, [], ◌∷◌, arith, map, length,
  All, All-append, All-split, somes, somes-append, sym, ◌∙◌,
}
use ematix_probe.Float.{Float, IsIeee}
use ematix_probe.Adapter.{AdapterError, returned, raised}
use ematix_probe.Data.{Assertion, ProbePlan, AssertionResult, summarise}
use ematix_probe.Crates.{Crates}
use ematix_probe.Crates.Laws.{IsArrow}
use ematix_probe.Scan.Acc.{Acc}
use ematix_probe.Scan.Build.{build}
use ematix_probe.Scan.Update.{◌>>=◌}
use ematix_probe.Scan.Finalize.{finalize}
use ematix_probe.Scan.Evaluate.{Scanner, finalize_all, conclude, evaluate}
use ematix_probe.Scan.Run.{gather, gather-cons, run, outcome_of}
use ematix_probe.Prelude.Counts.{some_injective}
use ematix_probe.Scan.Decide.Percentile.{finalize_percentile-some}
use ematix_probe.Scan.Conform.{Fits}
use ematix_probe.Scan.Conform.Builds.{IsReady, IsReady-pure, build-Fits}
use ematix_probe.Scan.Errors.{is_error}
use ematix_probe.Scan.Arms.{number_column}
use ematix_probe.Scan.Sorting.{NoNan}
use ematix_probe.Scan.Loops.{collect_cells-somes}
use ematix_probe.Scan.Total.Runs.{Ran, AllSteps, scan_loop-Delivers, scan_loop-Raises}

module _ {F : Type 0} (c : Crates F) (law : IsArrow c) ⦃fl : Float F⦄ where
  open c use {DataType, Schema, RecordBatch, Regex, num_rows, index_of}

  -- the results of the assertions, each by itself, from index `i` on
  abbrev pub ResultsOf :
      (ℕ → Option ℕ)
      → ℕ
      → Schema
      → List RecordBatch
      → List (Assertion F DataType)
      → List (AssertionResult F)
      → Type 0
  ResultsOf clock i sch bs [] [] = Unit
  ResultsOf clock i sch bs (a ∷ assertions) (r ∷ results) =
      (outcome_of c (clock i) i a sch bs ≡ some r)
      × ResultsOf clock (suc i) sch bs assertions results
  ResultsOf clock i sch bs _ _ = ⊥

  build-All-Fits :
      (N : ℕ → List F → Type 0) (sch : Schema) (assertions : List (Assertion F DataType))
      → All (λ a. IsReady c law N a sch) assertions
      → All (Fits c N sch 0) (map (λ a. build c a sch) assertions)
  build-All-Fits N sch [] h = tt
  build-All-Fits N sch (a ∷ assertions) (h, hs) =
      (build-Fits c law N a sch h, build-All-Fits N sch assertions hs)

  All-IsReady :
      (sch : Schema) (assertions : List (Assertion F DataType))
      → All (λ a. IsReady c law (λ i vs. Unit) a sch) assertions
  All-IsReady sch [] = tt
  All-IsReady sch (a ∷ assertions) =
      (IsReady-pure c law (λ i vs. Unit) a sch (λ i. tt), All-IsReady sch assertions)

  -- No value of the column in the batches is a NaN.
  abbrev pub NoNanIn : ℕ → List RecordBatch → Type 0
  NoNanIn i = All λ b. (xs : List (Option F)) → number_column c i b ≡ some xs → NoNan (somes xs)

  -- A percentile that the build does not refuse reads no NaN of the batches. This asks nothing of
  -- the other assertions.
  abbrev pub IsSortable : Schema → List RecordBatch → Assertion F DataType → Type 0
  IsSortable sch bs (Assertion.percentile_between name p low high) =
      is_error (build c (Assertion.percentile_between name p low high) sch) ≡ false
      → (i : ℕ) → index_of sch name ≡ some i
      → NoNanIn i bs
  IsSortable sch bs _ = Unit

  -- Where all that a column gives is no NaN, no batch has one.
  pub NoNanIn-gather :
      (i : ℕ) (bs : List RecordBatch) (xs : List (Option F))
      → gather (number_column c i) bs ≡ some xs
      → NoNan (somes xs)
      → NoNanIn i bs
  NoNanIn-gather i [] xs read n = tt
  NoNanIn-gather i (b ∷ bs) xs read n =
      let (ys, zs, here, rest, both) = gather-cons (number_column c i) b bs read in
      let (first, others) =
        All-split (λ x. fl.le x x ≡ true) (somes ys) (somes zs)
          (rw somes-append at (rw both at n)) in
      (
        (λ ws again. rw (some_injective ys ws (sym here ∙ again)) at first),
        NoNanIn-gather i bs zs rest others,
      )

  -- what a percentile holds, and what it will read
  abbrev Held : List RecordBatch → ℕ → List F → Type 0
  Held bs i vs = NoNan vs × NoNanIn i bs

  Held-AllSteps : AllSteps c law Held
  Held-AllSteps b bs i vs xs read (n, (here, rest)) =
      (rw (collect_cells-somes xs vs) (All-append _ vs (somes xs) n (here xs read)), rest)

  IsSortable-IsReady :
      (sch : Schema) (bs : List RecordBatch) (a : Assertion F DataType)
      → IsSortable sch bs a
      → IsReady c law (Held bs) a sch
  IsSortable-IsReady sch bs (Assertion.percentile_between name p low high) h =
      λ made i found. (tt, h made i found)
  IsSortable-IsReady sch bs _ h = tt

  All-IsSortable :
      (sch : Schema) (bs : List RecordBatch) (assertions : List (Assertion F DataType))
      → All (IsSortable sch bs) assertions
      → All (λ a. IsReady c law (Held bs) a sch) assertions
  All-IsSortable sch bs [] h = tt
  All-IsSortable sch bs (a ∷ assertions) (h, hs) =
      (IsSortable-IsReady sch bs a h, All-IsSortable sch bs assertions hs)

  module _ (ieee : IsIeee F) where
    finalize-Fits :
        (clock : Option ℕ) (i n : ℕ) (sch : Schema) (acc : Acc F Regex)
        → Fits c (Held []) sch n acc
        → n < 2 ^ 53
        → (r : AssertionResult F) × (finalize clock acc i ≡ some r)
    unfolding finalize
    finalize-Fits clock i n sch (Acc.percentile_between name k p low high vs)
          (f, u, short, (numbers, _)) h =
        finalize_percentile-some ieee i name p low high vs u (omega arith) numbers
    finalize-Fits clock i n sch _ f h = (_, refl)

    outcome_of-parts :
        (clock : Option ℕ) (i : ℕ) (a : Assertion F DataType) (sch : Schema) (bs : List RecordBatch)
        (acc : Acc F Regex) (r : AssertionResult F)
        → run c bs (build c a sch) ≡ some acc
        → finalize clock acc i ≡ some r
        → outcome_of c clock i a sch bs ≡ some r
    unfolding outcome_of
    outcome_of-parts clock i a sch bs acc r e f = rw (e, ◌>>=◌) f

    finalize_all-Fits :
        (clock : ℕ → Option ℕ) (i n : ℕ) (sch : Schema) (bs : List RecordBatch)
        (assertions : List (Assertion F DataType)) (accs : List (Acc F Regex))
        → Ran c law bs (map (λ a. build c a sch) assertions) accs
        → All (Fits c (Held []) sch n) accs
        → n < 2 ^ 53
        → (results : List (AssertionResult F)) × (finalize_all c clock i accs ≡ some results)
          × ResultsOf clock i sch bs assertions results
    unfolding finalize_all
    finalize_all-Fits clock i n sch bs [] [] r f h = ([], refl, tt)
    finalize_all-Fits clock i n sch bs [] (_ ∷ _) r f h = absurd r
    finalize_all-Fits clock i n sch bs (_ ∷ _) [] r f h = absurd r
    finalize_all-Fits clock i n sch bs (a ∷ assertions) (acc ∷ accs) (e, r) (g, f) h =
        let (result, done) = finalize-Fits (clock i) i n sch acc g h in
        let (results, all_done, each) =
          finalize_all-Fits clock (suc i) n sch bs assertions accs r f h in
        (
          result ∷ results,
          rw (done, ◌>>=◌, all_done) refl,
          (outcome_of-parts (clock i) i a sch bs acc result e done, each),
        )

    module _ {S : Type 0} (scanner : Scanner S Schema RecordBatch F) where
      -- With arrow's documented behaviour (IsArrow) and the IEEE 754 facts of IsIeee: over a
      -- scanner that delivers batches of its schema, fewer than 2^53 rows in all, and a plan whose
      -- percentiles read no NaN of them (IsSortable; on a NaN the sort may panic), `evaluate`
      -- returns: it neither panics nor loops (with more fuel than there are batches) nor raises.
      -- The summary holds one result for each assertion, in the plan's order and with its index,
      -- each the outcome of that assertion by itself, and the reduced verdict of them all.
      pub evaluate-returns :
          (fuel : ℕ) (clock : ℕ → Option ℕ) (plan : ProbePlan F DataType) (s : S)
          (bs : List RecordBatch)
          → length bs < fuel
          → Delivers scanner s bs
          → HasSchema c law (scanner.schema s) bs
          → rows c law bs < 2 ^ 53
          → All (IsSortable (scanner.schema s) bs) plan.assertions
          → (results : List (AssertionResult F)) × (evaluate c scanner fuel clock plan s
              ≡ returned (summarise results))
            × ResultsOf clock 0 (scanner.schema s) bs plan.assertions results
      unfolding evaluate conclude
      evaluate-returns fuel clock plan s bs more d h few sortable =
          let sch = scanner.schema s in
          let (accs, l, ran, f) =
            scan_loop-Delivers c law scanner Held Held-AllSteps sch bs s fuel 0
              (map (λ a. build c a sch) plan.assertions) more d h
              (build-All-Fits (Held bs) sch plan.assertions
                (All-IsSortable sch bs plan.assertions sortable)) in
          let (results, done, each) =
            finalize_all-Fits clock 0 (0 + rows c law bs) sch bs plan.assertions accs ran f
              (omega arith) in
          (results, rw (l, conclude) (rw (done, conclude) refl), each)

      -- With arrow's documented behaviour (IsArrow) and the IEEE 754 facts of IsIeee: if the
      -- scanner raises an error after any number of batches of its schema, `evaluate` raises that
      -- error (with more fuel than there are batches), and there is no summary.
      pub evaluate-Raises :
          (e : AdapterError F) (fuel : ℕ) (clock : ℕ → Option ℕ) (plan : ProbePlan F DataType)
          (s : S) (bs : List RecordBatch)
          → length bs < fuel
          → Raises scanner e s bs
          → HasSchema c law (scanner.schema s) bs
          → evaluate c scanner fuel clock plan s ≡ raised e
      unfolding evaluate conclude
      evaluate-Raises e fuel clock plan s bs more d h =
          let sch = scanner.schema s in
          rw
            (scan_loop-Raises c law scanner (λ bs i vs. Unit) (λ b bs i vs xs read held. tt) e sch
              bs s fuel 0 (map (λ a. build c a sch) plan.assertions) more d h
              (build-All-Fits (λ i vs. Unit) sch plan.assertions (All-IsReady sch plan.assertions)))
            refl
