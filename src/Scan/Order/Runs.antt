-- ===== src/Scan/Order/Runs.antt =====
-- `evaluate` of engine/scan.rs over the same rows in another order, or in other batches.
use ematix_probe.Prelude.{
  ℕ, suc, ◌<◌, ◌^◌, ◌≡◌, inl, inr, sym, ◌∙◌, Option, List, [], ◌∷◌, length, All, somes,
}
use ematix_probe.Prelude.Counts.{some_injective}
use ematix_probe.Float.{Float, IsIeee}
use ematix_probe.Adapter.{returned}
use ematix_probe.Crates.{Crates}
use ematix_probe.Crates.Laws.{IsArrow}
use ematix_probe.Data.{Assertion, ProbePlan, AssertionResult, reduce_verdict, summarise}
use ematix_probe.Data.Alike.{Agree, reduce_verdict-Agree}
use ematix_probe.Scan.Evaluate.{Scanner, evaluate}
use ematix_probe.Scan.Total.{
  Delivers, HasSchema, IsSortable, NoNanIn-gather, ResultsOf, rows, evaluate-returns,
}
use ematix_probe.Scan.Order.Items.{SameItems-somes, All-true}
use ematix_probe.Scan.Order.Rearranged.{IsUnordered, Coincide, Coincide-refused}
use ematix_probe.Scan.Order.Coincides.{Rearranges-Coincide}

module _ {F : Type 0} (c : Crates F) (law : IsArrow c) ⦃fl : Float F⦄ (ieee : IsIeee F)
    (clock : ℕ → Option ℕ) (sch : c.Schema) (bs cs : List c.RecordBatch) where
  open c use {DataType, Schema, RecordBatch}

  IsUnordered-Coincide :
      (i : ℕ) (a : Assertion F DataType)
      → IsUnordered c clock sch bs cs a
      → Coincide c clock sch bs cs i a
  IsUnordered-Coincide i a (inl h) = Coincide-refused c clock sch bs cs i a h
  IsUnordered-Coincide i a (inr h) = Rearranges-Coincide c clock sch bs cs law ieee i a h

  ResultsOf-Agree :
      (i : ℕ) (assertions : List (Assertion F DataType)) (results others : List (AssertionResult F))
      → All (IsUnordered c clock sch bs cs) assertions
      → ResultsOf c law clock i sch bs assertions results
      → ResultsOf c law clock i sch cs assertions others
      → Agree results others
  ResultsOf-Agree i [] [] [] h r q = tt
  ResultsOf-Agree i (a ∷ assertions) (r ∷ results) (q ∷ others) (h, hs) (e, es) (f, fs) =
      let (r', q', e', f', index, verdict) = IsUnordered-Coincide i a h in
      let first : r' ≡ r = some_injective r' r (sym e' ∙ e) in
      let second : q' ≡ q = some_injective q' q (sym f' ∙ f) in
      (
        (rw first at (rw second at index), rw first at (rw second at verdict)),
        ResultsOf-Agree (suc i) assertions results others hs es fs,
      )
  ResultsOf-Agree i [] (_ ∷ _) others h r q = absurd r
  ResultsOf-Agree i [] [] (_ ∷ _) h r q = absurd q
  ResultsOf-Agree i (_ ∷ _) [] others h r q = absurd r
  ResultsOf-Agree i (_ ∷ _) (_ ∷ _) [] h r q = absurd q

  -- The percentiles read no NaN of either list of batches.
  IsUnordered-IsSortable :
      (a : Assertion F DataType)
      → IsUnordered c clock sch bs cs a
      → IsSortable c law sch bs a × IsSortable c law sch cs a
  IsUnordered-IsSortable (Assertion.percentile_between name p low high) (inl refused) =
      ((λ made. cc), λ made. cc)
  IsUnordered-IsSortable (Assertion.percentile_between name p low high)
        (inr (
          k,
          finite,
          unit,
          found,
          numeric,
          (xs, ys, read, reread, h, few, (some_value, numbers)),
        )) =
      let values = SameItems-somes xs ys h in
      (
        (λ made i at.
            let same : k ≡ i = some_injective k i (sym found ∙ at) in
            rw same at (NoNanIn-gather c law k bs xs read numbers)),
        λ made i at.
            let same : k ≡ i = some_injective k i (sym found ∙ at) in
            rw same at (
              NoNanIn-gather c law k cs ys reread
                (All-true (λ x. fl.le x x) (somes xs) (somes ys) values numbers)),
      )
  IsUnordered-IsSortable _ h = (tt, tt)

  All-IsSortable :
      (assertions : List (Assertion F DataType))
      → All (IsUnordered c clock sch bs cs) assertions
      → All (IsSortable c law sch bs) assertions × All (IsSortable c law sch cs) assertions
  All-IsSortable [] h = (tt, tt)
  All-IsSortable (a ∷ assertions) (h, hs) =
      let (one, other) = IsUnordered-IsSortable a h in
      let (ones, others) = All-IsSortable assertions hs in ((one, ones), (other, others))

  module _ {S T : Type 0} (scanner : Scanner S Schema RecordBatch F)
      (other : Scanner T Schema RecordBatch F) where
    -- Two scanners of one schema, whose batches have fewer than 2^53 rows each, and a plan whose
    -- assertions are either refused by the build or read the same items of both, in any order and
    -- divided into batches in any way (Rearranges: on a column that the schema has, of a type that
    -- the assertion takes, with no NaN for a percentile and ages that fit an `i64` for `Freshness`):
    -- both runs of `evaluate` with the same clock return a summary, with the same verdict, and with
    -- the same index and verdict for each assertion. Both have more fuel than there are batches;
    -- arrow behaves as it documents (IsArrow), and the floats obey the IEEE 754 facts of IsIeee.
    pub evaluate-IsUnordered :
        (plan : ProbePlan F DataType) (fuel more_fuel : ℕ) (s : S) (t : T)
        → All (IsUnordered c clock sch bs cs) plan.assertions
        → scanner.schema s ≡ sch
        → other.schema t ≡ sch
        → Delivers scanner s bs
        → Delivers other t cs
        → HasSchema c law sch bs
        → HasSchema c law sch cs
        → length bs < fuel
        → length cs < more_fuel
        → rows c law bs < 2 ^ 53
        → rows c law cs < 2 ^ 53
        → (results others : List (AssertionResult F)) × (evaluate c scanner fuel clock plan s
            ≡ returned (summarise results))
          × (evaluate c other more_fuel clock plan t ≡ returned (summarise others))
          × Agree results others
          × (reduce_verdict results ≡ reduce_verdict others)
    evaluate-IsUnordered plan fuel more_fuel s t unordered at also d d' h h' enough and_more few
          few' =
        let (sortable, also_sortable) = All-IsSortable plan.assertions unordered in
        let (results, scanned, each) =
          evaluate-returns c law ieee scanner fuel clock plan s bs enough d (rw at h) few
            (rw at sortable) in
        let (others, rescanned, each') =
          evaluate-returns c law ieee other more_fuel clock plan t cs and_more d' (rw also h') few'
            (rw also also_sortable) in
        let alike : Agree results others =
          ResultsOf-Agree 0 plan.assertions results others unordered (rw at at each)
            (rw also at each') in
        (results, others, scanned, rescanned, alike, reduce_verdict-Agree results others alike)
