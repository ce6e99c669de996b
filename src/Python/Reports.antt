-- ===== src/Python/Reports.antt =====
-- The report of `run_parquet_probe` in crates/ematix-probe-py/src/lib.rs, from the file to Python.
use ematix_probe.Prelude.{
  ℕ, ◌^◌, ◌<◌, ◌≡◌, ◌≢◌, ◌↔◌, true, false, arith, refl, ◌∙◌, sym, String, Option, List, [], ◌∷◌,
  length, All, string_eq,
}
use ematix_probe.Float.{Float, IsIeee}
use ematix_probe.Adapter.{returned}
use ematix_probe.Call.{◌>>=◌, after}
use ematix_probe.Crates.{ok, Crates}
use ematix_probe.Crates.Laws.{IsArrow}
use ematix_probe.Blocking.{replied, answer, request}
use ematix_probe.Data.{Verdict, AssertionResult, reduce_verdict, summarise}
use ematix_probe.Data.Verdicts.{worse, reduce_verdict-cons}
use ematix_probe.Scan.Total.{HasSchema, IsSortable, ResultsOf, rows}
use ematix_probe.Sources.Parquet.{ParquetCrate}
use ematix_probe.Sources.Parquet.Adapter.{open_parquet}
use ematix_probe.Sources.Parquet.Pulls.{Opens, Yields}
use ematix_probe.Sources.Parquet.Streams.{execute_parquet-returns}
use ematix_probe.Python.{
  PyAssertion, PyProbePlan, PyRunReport, verdict_str, result_verdict, report_verdict,
  assertion_not_null, assertion_unique, assertion_unique_group, assertion_between,
  assertion_freshness, assertion_regex, assertion_enum, assertion_row_count,
}
use ematix_probe.Python.Kinds.{IsMade}
use ematix_probe.Python.Probes.{PyResult, to_py, build_runtime, run_parquet_probe}

false-ne-true : false ≢ true
false-ne-true e = cc

verdict_str-pass : (v : Verdict) → (verdict_str v ≡ "pass") ↔ (v ≡ Verdict.pass)
unfolding verdict_str
verdict_str-pass Verdict.pass = ((λ e. refl), λ e. refl)
verdict_str-pass Verdict.fail =
    ((λ e. absurd (false-ne-true ((string_eq.beq_iff "fail" "pass").1 e))), λ e. cc)
verdict_str-pass Verdict.error =
    ((λ e. absurd (false-ne-true ((string_eq.beq_iff "error" "pass").1 e))), λ e. cc)

pass-worse : (w : Verdict) → worse Verdict.pass w ≡ Verdict.pass → w ≡ Verdict.pass
unfolding worse
pass-worse Verdict.pass e = refl
pass-worse Verdict.fail e = e
pass-worse Verdict.error e = e

worse-pass :
    (v w : Verdict) → (worse v w ≡ Verdict.pass) ↔ ((v ≡ Verdict.pass) × (w ≡ Verdict.pass))
unfolding worse
worse-pass Verdict.pass w = ((λ e. (refl, pass-worse w e)), λ (e, f). rw f refl)
worse-pass Verdict.fail w = ((λ e. ground arith), λ (e, f). cc)
worse-pass Verdict.error w = ((λ e. ground arith), λ (e, f). cc)

module _ {F : Type 0} where
  -- All the results are passes, as Python reads them.
  abbrev pub AllPass : List (AssertionResult F) → Type 0
  AllPass = All λ r. result_verdict r ≡ "pass"

  reduce_verdict-AllPass :
      (rs : List (AssertionResult F)) → (reduce_verdict rs ≡ Verdict.pass) ↔ AllPass rs
  unfolding result_verdict reduce_verdict
  reduce_verdict-AllPass [] = ((λ e. tt), λ e. refl)
  reduce_verdict-AllPass (r ∷ rs) =
      let cons = reduce_verdict-cons r rs in
      let (both, back) = worse-pass r.verdict (reduce_verdict rs) in
      let (rest, rest_back) = reduce_verdict-AllPass rs in
      (
        (λ e.
            let (one, more) = both (sym cons ∙ e) in
            ((verdict_str-pass r.verdict).1 one, rest more)),
        λ (one, more). cons ∙ back ((verdict_str-pass r.verdict).0 one, rest_back more),
      )

module _ {F : Type 0} (c : Crates F) (law : IsArrow c) ⦃fl : Float F⦄ (ieee : IsIeee F) where
  open c use {DataType, Schema, RecordBatch}

  module _ {W File Builder Reader : Type 0}
      (parquet : ParquetCrate W File Builder Reader Schema RecordBatch) where
    open_parquet-valid :
        (path : String) (w : W) (file : File) (builder : Builder)
        → (parquet.open_file path w).0 ≡ replied (ok file)
        → (parquet.try_new file (parquet.open_file path w).1).0 ≡ replied (ok builder)
        → open_parquet F parquet path w ≡ (
          returned (record { path = path }),
          (parquet.try_new file (parquet.open_file path w).1).1,
        )
    unfolding open_parquet request answer ◌>>=◌ after
    open_parquet-valid path w file builder o t =
        rw (o, open_parquet, ◌>>=◌, request, answer, after)
          (rw (t, ◌>>=◌, request, answer, after) refl)

    -- No factory makes a percentile.
    pub IsMade-IsSortable :
        (sch : Schema) (bs : List RecordBatch) (a : PyAssertion F DataType) (name : String)
        → IsMade a name
        → IsSortable c law sch bs a
    unfolding assertion_not_null assertion_unique assertion_unique_group assertion_between
        assertion_freshness assertion_regex assertion_enum assertion_row_count
    IsMade-IsSortable sch bs a name (IsMade.not_null _ _ e) = rw e tt
    IsMade-IsSortable sch bs a name (IsMade.unique _ _ e) = rw e tt
    IsMade-IsSortable sch bs a name (IsMade.unique_group _ _ e) = rw e tt
    IsMade-IsSortable sch bs a name (IsMade.between _ _ _ _ e) = rw e tt
    IsMade-IsSortable sch bs a name (IsMade.freshness _ _ _ e) = rw e tt
    IsMade-IsSortable sch bs a name (IsMade.regex _ _ _ e) = rw e tt
    IsMade-IsSortable sch bs a name (IsMade.enum _ _ _ e) = rw e tt
    IsMade-IsSortable sch bs a name (IsMade.row_count _ _ _ e) = rw e tt

    -- With arrow's documented behaviour (IsArrow) and the IEEE 754 facts of IsIeee: where the runtime
    -- is built, and the file at the path opens for the validation and once more for the scan, as a
    -- reader of batches of its schema, fewer than 2^53 rows in all, where no percentile reads a NaN
    -- (IsSortable, which asks nothing of an assertion that a factory makes), `run_parquet_probe`
    -- returns a report to Python (with more fuel than there are batches). The report has the outcome
    -- of each assertion of the plan by itself, in the plan's order, and its verdict is "pass" exactly
    -- if the verdict of every result is "pass".
    pub run_parquet_probe-reports :
        (fuel : ℕ) (clock : ℕ → Option ℕ) (path : String) (plan : PyProbePlan F DataType) (w : W)
        (file : File) (builder : Builder) (r : Reader) (bs : List RecordBatch)
        → (parquet.open_file path w).0 ≡ replied (ok file)
        → (parquet.try_new file (parquet.open_file path w).1).0 ≡ replied (ok builder)
        → Opens parquet path (parquet.try_new file (parquet.open_file path w).1).1 r
        → Yields parquet r bs
        → HasSchema c law (parquet.schema r) bs
        → length bs < fuel
        → rows c law bs < 2 ^ 53
        → All (IsSortable c law (parquet.schema r) bs) plan.assertions
        → (report : PyRunReport F) × (run_parquet_probe
              (replied (ok tt))
              c
              parquet
              fuel
              clock
              path
              plan
              w
            ≡ PyResult.value report)
          × ResultsOf c law clock 0 (parquet.schema r) bs plan.assertions report.assertions
          × ((report_verdict report ≡ "pass") ↔ AllPass report.assertions)
    unfolding run_parquet_probe to_py build_runtime answer ◌>>=◌ after report_verdict
    run_parquet_probe-reports fuel clock path plan w file builder r bs o t again y h more few
          sortable =
        let (results, e, each) =
          execute_parquet-returns c parquet law ieee fuel clock plan (record { path = path })
            (parquet.try_new file (parquet.open_file path w).1).1 r bs more again y h few
            sortable in
        let (to_pass, from_pass) = verdict_str-pass (reduce_verdict results) in
        let (all_pass, pass_all) = reduce_verdict-AllPass results in
        (
          summarise results,
          rw (open_parquet-valid path w file builder o t, run_parquet_probe, ◌>>=◌, after, e, to_py)
              refl,
          each,
          ((λ p. all_pass (to_pass p)), λ a. from_pass (pass_all a)),
        )
