-- ===== src/Examples/Requests.antt =====
-- Three requests at one a second, and the theorems on the load adapters and the Python factories
-- applied to them.
use ematix_probe.Prelude.{
  ℕ, zero, suc, ◌-◌, ◌<◌, ◌≡◌, ◌≢◌, ◌↔◌, refl, String, true, false, some, List, [], ◌∷◌, arith,
  length, All, contains, string_eq, if◌then◌else◌, eqb,
}
use ematix_probe.Message.{lit, str}
use ematix_probe.Adapter.{AdapterError, Outcome, returned, raised}
use ematix_probe.Data.{Assertion, AssertionResult, summarise}
use ematix_probe.Data.Verdicts.{Numbered}
use ematix_probe.Load.Evaluate.{eval_from, warmup_ticks, evaluate_load}
use ematix_probe.Load.Http.Probe.{Collects-evaluate_load}
use ematix_probe.Crates.{Result, ok, err}
use ematix_probe.Blocking.{replied, unwound}
use ematix_probe.Load.Plan.{LoadAssertion, LoadMode, LoadPlan, Sample, load_plan_profile}
use ematix_probe.Load.Http.{Reqwest, collect_constant_rate}
use ematix_probe.Load.Http.Rates.{IsExclusive, samples_of, Collects-unwound}
use ematix_probe.Python.{kind}
use ematix_probe.Python.Module.{functions}
use ematix_probe.Python.Kinds.{IsMade, kind-iff-IsMade}
use ematix_probe.Examples.Numbers.{Thousandths, thousandths, thousandths-IsIeee}
use ematix_probe.Examples.Arrow.{ColumnType}
use ematix_probe.Examples.Loads.{reading, due, over}

abbrev plan : LoadPlan Thousandths
plan = record {
  target = record { method = "GET"; url = "http://localhost/" };
  duration = 2500000000;
  mode = LoadMode.constant_rate (some 1000);
  warmup = 0;
  assertions = [];
}

-- the second request fails
abbrev reply : ℕ → ℕ × Result String ℕ
reply i = (1000000, if eqb i 1 then err "connection reset" else ok 200)

abbrev answering : Reqwest Unit
answering = record { build = λ timeout. ok tt; send = λ client url i. replied (reply i) }

-- the request of tick 1 panics
abbrev panicking : Reqwest Unit
panicking = record {
  build = λ timeout. ok tt;
  send = λ client url i. if eqb i 1 then unwound "boom" else replied (reply i);
}

abbrev came_to : Reqwest Unit → Outcome Thousandths (List Sample)
came_to reqwest =
    collect_constant_rate reqwest tt "http://localhost/"
      (reading 7 ∷ reading 8 ∷ reading 9 ∷ reading 9 ∷ []) (some 1000) 2500000000

-- the first tick is warmup
abbrev warmed : LoadPlan Thousandths
warmed = record plan {
  warmup = 1000000000;
  assertions =
      LoadAssertion.status_code_in (200 ∷ []) ∷ LoadAssertion.throughput_above (some 1000) ∷ [];
}

Collects-evaluate_load_example :
    let warm = warmup_ticks {F = Thousandths} warmed.mode warmed.warmup in
    (results : List (AssertionResult Thousandths)) × (came_to answering
      ≡ returned (samples_of reply 0 3))
    × All IsExclusive (samples_of reply 0 3)
    × (evaluate_load warmed (samples_of reply 0 3) ≡ some (summarise results))
    × (eval_from 0 warmed.assertions 1500000000 (samples_of reply warm (3 - warm)) ≡ some results)
    × Numbered 0 results
    × (length results ≡ 2)
Collects-evaluate_load_example =
    Collects-evaluate_load thousandths-IsIeee refl answering tt warmed (some 1000) refl refl 3
      (reading 7) (reading 8 ∷ reading 9 ∷ reading 9 ∷ []) reply (came_to answering) (omega arith)
      due over (omega arith) (omega arith) refl (λ j h. refl)

first_replied : (j : ℕ) → j < 1 → panicking.send tt "http://localhost/" j ≡ replied (reply j)
first_replied zero h = refl
first_replied (suc j) h = absurd (omega arith)

Collects-unwound_example :
    came_to panicking ≡ raised (AdapterError.connection (lit "join: " ∷ str "boom" ∷ []))
Collects-unwound_example =
    Collects-unwound panicking tt plan (some 1000) refl refl 3 (reading 7)
      (reading 8 ∷ reading 9 ∷ reading 9 ∷ []) due over (omega arith) (omega arith) reply
      (came_to panicking) refl 1 "boom" (omega arith) first_replied refl

regex-ne-unknown : ◌≢◌ {A = String} "regex" "unknown"
regex-ne-unknown e = no ((string_eq.beq_iff "regex" "unknown").1 e)
  where
    no : false ≢ true
    no e = cc

kind-iff-IsMade_example :
    ((kind {F = Thousandths} {D = ColumnType} (Assertion.regex "name" "a+") ≡ "regex")
      ↔ IsMade {F = Thousandths} {D = ColumnType} (Assertion.regex "name" "a+") "regex")
    × (kind {F = Thousandths} {D = ColumnType} (Assertion.regex "name" "a+") ≡ "regex"
        → contains functions "assertion_regex" ≡ true)
kind-iff-IsMade_example = kind-iff-IsMade (Assertion.regex "name" "a+") "regex" regex-ne-unknown
