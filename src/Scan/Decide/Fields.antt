-- ===== src/Scan/Decide/Fields.antt =====
-- The `SchemaMatch` assertion.
use ematix_probe.Prelude.{
  ℕ, suc, ◌≡◌, ◌≢◌, ◌⊎◌, inl, inr, refl, String, Option, none, some, List, [], ◌∷◌, arith, length,
  string_eq,
}
use ematix_probe.Message.{Message}
use ematix_probe.Float.{Float}
use ematix_probe.Data.{Verdict, Assertion, AssertionResult}
use ematix_probe.Crates.{Crates}
use ematix_probe.Crates.Laws.{IsArrow}
use ematix_probe.Scan.Acc.{Acc}
use ematix_probe.Scan.Build.{build, build_schema_match, match_fields}
use ematix_probe.Scan.Update.{update}
use ematix_probe.Scan.Finalize.{finalize}
use ematix_probe.Scan.Run.{run, outcome_of}
use ematix_probe.Scan.Decide.{Decides, outcome_of-run}

module _ {F : Type 0} (c : Crates F) (law : IsArrow c) ⦃fl : Float F⦄ where
  open c use {DataType, Schema, RecordBatch, Regex, fields, type_eq}

  run-schema_match :
      (bs : List RecordBatch) (v : Verdict) (m : Option (Message F))
      → run c bs (Acc.schema_match v m) ≡ some (Acc.schema_match v m)
  unfolding run update
  run-schema_match [] v m = refl
  run-schema_match (b ∷ bs) v m = run-schema_match bs v m

  abbrev verdict_of : Acc F Regex → Option Verdict
  verdict_of (Acc.schema_match v m) = some v
  verdict_of _ = none

  -- The accumulator holds `Pass` where `P` holds and `Fail` where it does not.
  abbrev Holds : Acc F Regex → Type 0 → Type 0
  Holds acc P =
      ((verdict_of acc ≡ some Verdict.pass) × P) ⊎ ((verdict_of acc ≡ some Verdict.fail) × (¬ P))

  match_fields-Holds :
      (i : ℕ) (exps acts : List (String × DataType))
      → length acts ≡ length exps
      → Holds (match_fields c i exps acts) (exps ≡ acts)
  unfolding match_fields
  match_fields-Holds i [] [] h = inl (refl, refl)
  match_fields-Holds i [] (a ∷ acts) h = absurd (omega arith)
  match_fields-Holds i (x ∷ exps) [] h = absurd (omega arith)
  match_fields-Holds i ((n, s) ∷ exps) ((n', t) ∷ acts) h =
      ground
        (arith, match_fields-Holds (suc i) exps acts, string_eq.beq_iff n n', law.type_eq_iff s t)

  build_schema_match-Holds :
      (expected : List (String × DataType)) (schema : Schema)
      → expected ≢ []
      → Holds (build_schema_match c expected schema) (expected ≡ fields schema)
  unfolding build_schema_match
  build_schema_match-Holds [] schema some_field = absurd (some_field refl)
  build_schema_match-Holds (x ∷ exps) schema some_field =
      ground (arith, match_fields-Holds 0 (x ∷ exps) (fields schema))

  -- The result that a run leaves of such an accumulator.
  Holds-decides :
      (clock : Option ℕ) (i : ℕ) (P : Type 0) (bs : List RecordBatch) (acc : Acc F Regex)
      → Holds acc P
      → (r : AssertionResult F) × (end : Acc F Regex) × (run c bs acc ≡ some end)
        × (finalize clock end i ≡ some r)
        × Decides i r P
  unfolding finalize
  Holds-decides clock i P bs (Acc.schema_match v m) h = (
    record { assertion_index = i; verdict = v; message = m },
    Acc.schema_match v m,
    run-schema_match bs v m,
    refl,
    (refl, (elim h [ inl (e, p) ↦ inl (ground arith, p) | inr (e, p) ↦ inr (ground arith, p) ])),
  )
  Holds-decides clock i P bs _ (inl (e, p)) = cc
  Holds-decides clock i P bs _ (inr (e, p)) = cc

  -- With arrow's documented behaviour (IsArrow): `SchemaMatch` with a list of fields that is not
  -- empty passes exactly when the schema has these fields, with these names and types in this
  -- order, and fails otherwise, whatever the batches.
  pub schema_match-decides :
      (clock : Option ℕ) (i : ℕ) (expected : List (String × DataType)) (schema : Schema)
      (batches : List RecordBatch)
      → expected ≢ []
      → (r : AssertionResult F) × (outcome_of c clock i
            (Assertion.schema_match expected)
            schema
            batches
          ≡ some r)
        × Decides i r (expected ≡ fields schema)
  unfolding build
  schema_match-decides clock i expected schema batches some_field =
      let a : Assertion F DataType = Assertion.schema_match expected in
      let (r, end, ran, done, decided) =
        Holds-decides clock i (expected ≡ fields schema) batches
          (build_schema_match c expected schema)
          (build_schema_match-Holds expected schema some_field) in
      (r, outcome_of-run c clock i a schema batches refl ran done, decided)
