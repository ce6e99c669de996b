-- ===== src/Postgres/Agreement.antt =====
-- The Postgres adapter of adapters/data/postgres.rs against the scan path of engine/scan.rs.
use ematix_probe.Prelude.{
  ℕ, suc, ℤ, ◌<◌, ◌^◌, ◌≡◌, sym, ◌∙◌, String, Option, none, some, List, [], ◌∷◌, arith, length, All,
  Eq,
}
use ematix_probe.Float.{Float, IsIeee}
use ematix_probe.Adapter.{returned}
use ematix_probe.Crates.{Crates}
use ematix_probe.Crates.Laws.{IsArrow}
use ematix_probe.Data.{Assertion, ProbePlan, AssertionResult, reduce_verdict, summarise}
use ematix_probe.Data.Alike.{Agree, reduce_verdict-Agree, Decides-Agree}
use ematix_probe.Scan.Finalize.{finalize_row_count, pass, fail}
use ematix_probe.Scan.Evaluate.{Scanner, evaluate}
use ematix_probe.Scan.Total.{Delivers, HasSchema, IsSortable, ResultsOf, rows, evaluate-returns}
use ematix_probe.Postgres.Pool.{Pool}
use ematix_probe.Postgres.Checks.{judge_row_count}
use ematix_probe.Postgres.Execute.{execute}
use ematix_probe.Prelude.Counts.{some_injective}
use ematix_probe.Postgres.Tables.{Table, HoldsTable}
use ematix_probe.Postgres.Meaning.{IsCounted, AllDecided, execute-decides}
use ematix_probe.Postgres.Shown.{Shows, outcome_of-Answers}

module _ (F : Type 0) where
  -- On the same count the Postgres adapter and the scan path give the same verdict, with the same
  -- index, for every pair of bounds.
  judge_row_count-finalize_row_count :
      (idx : ℕ) (table : String) (low high : Option ℤ) (count : ℤ)
      → ((judge_row_count {F = F} idx table low high count).verdict
          ≡ (finalize_row_count {F = F} idx low high count).verdict)
        × ((judge_row_count {F = F} idx table low high count).assertion_index
            ≡ (finalize_row_count {F = F} idx low high count).assertion_index)
  unfolding judge_row_count finalize_row_count pass fail
  judge_row_count-finalize_row_count idx table none none count = ground arith
  judge_row_count-finalize_row_count idx table none (some hi) count = ground arith
  judge_row_count-finalize_row_count idx table (some lo) none count = ground arith
  judge_row_count-finalize_row_count idx table (some lo) (some hi) count = ground arith

module _ {F Row Value : Type 0} (c : Crates F) (law : IsArrow c) ⦃fl : Float F⦄ ⦃same : Eq Value⦄
    (table : Table F Row Value) (sch : c.Schema) (bs : List c.RecordBatch)
    (as_many : rows c law bs ≡ length table.rows) (few : length table.rows < 2 ^ 53) where
  open c use {DataType, RecordBatch}

  AllDecided-Agree :
      (clock : ℕ → Option ℕ) (i : ℕ) (assertions : List (Assertion F DataType))
      (results others : List (AssertionResult F))
      → All (IsCounted table) assertions
      → All (Shows c table sch bs) assertions
      → AllDecided table i assertions results
      → ResultsOf c law clock i sch bs assertions others
      → Agree results others
  AllDecided-Agree clock i [] [] [] h shown d e = tt
  AllDecided-Agree clock i (a ∷ assertions) (r ∷ results) (q ∷ others) (h, hs) (s, ss) (d, ds)
        (e, es) =
      let (q', f, decided) = outcome_of-Answers c law table sch bs as_many few (clock i) i a h s in
      let found : q' ≡ q = some_injective q' q (sym f ∙ e) in
      (
        Decides-Agree i r q d (rw found at decided),
        AllDecided-Agree clock (suc i) assertions results others hs ss ds es,
      )
  AllDecided-Agree clock i [] (_ ∷ _) others h shown d e = absurd d
  AllDecided-Agree clock i [] [] (_ ∷ _) h shown d e = absurd e
  AllDecided-Agree clock i (_ ∷ _) [] others h shown d e = absurd d
  AllDecided-Agree clock i (_ ∷ _) (_ ∷ _) [] h shown d e = absurd e

  IsCounted-IsSortable :
      (sch' : c.Schema) (assertions : List (Assertion F DataType))
      → All (IsCounted table) assertions
      → All (IsSortable c law sch' bs) assertions
  IsCounted-IsSortable sch' [] h = tt
  IsCounted-IsSortable sch' (Assertion.percentile_between name p low high ∷ assertions) (h, hs) =
      absurd h
  IsCounted-IsSortable sch' (_ ∷ assertions) (h, hs) = (tt, IsCounted-IsSortable sch' assertions hs)

  module _ (ieee : IsIeee F) {S T : Type 0} (pool : Pool T F)
      (scanner : Scanner S c.Schema RecordBatch F) where
    -- A table in a Postgres database that counts as PostgreSQL documents (HoldsTable), and a scanner
    -- of arrow batches that show the same rows (Shows; a column asked to be unique has no NULL), fewer
    -- than 2^53 of them: on a plan of the assertions that count rows, on columns the table has and of
    -- a fitting type (IsCounted), the Postgres adapter and the scan path judge alike. Both return a
    -- summary, with the same verdict, and with the same index and verdict for each assertion. The
    -- scan has more fuel than there are batches; arrow behaves as it documents (IsArrow), and the
    -- floats obey the IEEE 754 facts of IsIeee.
    pub execute-evaluate :
        (plan : ProbePlan F DataType) (fuel : ℕ) (clock : ℕ → Option ℕ) (t : T) (s : S)
        → HoldsTable pool plan table
        → All (IsCounted table) plan.assertions
        → All (Shows c table sch bs) plan.assertions
        → length bs < fuel
        → scanner.schema s ≡ sch
        → Delivers scanner s bs
        → HasSchema c law sch bs
        → (results others : List (AssertionResult F)) × (t' : T) × (execute pool plan t
            ≡ (returned (summarise results), t'))
          × (evaluate c scanner fuel clock plan s ≡ returned (summarise others))
          × Agree results others
          × (reduce_verdict results ≡ reduce_verdict others)
    execute-evaluate plan fuel clock t s db counted shown more at d h =
        let (results, t', done, decided) = execute-decides pool plan table db t counted in
        let short : rows c law bs < 2 ^ 53 = omega arith in
        let (others, scanned, each) =
          evaluate-returns c law ieee scanner fuel clock plan s bs more d (rw at h) short
            (IsCounted-IsSortable (scanner.schema s) plan.assertions counted) in
        let alike : Agree results others =
          AllDecided-Agree clock 0 plan.assertions results others counted shown decided
            (rw at at each) in
        (results, others, t', done, scanned, alike, reduce_verdict-Agree results others alike)
