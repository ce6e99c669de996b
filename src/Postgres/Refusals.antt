-- ===== src/Postgres/Refusals.antt =====
-- The assertions that `execute` of adapters/data/postgres.rs answers with a configuration error.
use ematix_probe.Prelude.{
  ℕ, suc, ◌≡◌, refl, ap, ◌∙◌, pos, Bool, true, false, none, List, [], ◌∷◌, ◌++◌, All, ltb_ℤ,
  if◌then◌else◌,
}
use ematix_probe.Message.{Message}
use ematix_probe.Float.{Float}
use ematix_probe.Adapter.{AdapterError, raised}
use ematix_probe.Data.{Assertion, ProbePlan, AssertionResult}
use ematix_probe.Call.{Call, ◌>>=◌, after, raise}
use ematix_probe.Postgres.Pool.{Pool}
use ematix_probe.Postgres.Execute.{
  run_enum, run_row_count, run_freshness, run_assertion, run_from, execute,
}
use ematix_probe.Postgres.Runs.{IsReliable, is_misconfigured, run_assertion-IsAnswered}

module _ {F D S : Type 0} ⦃fl : Float F⦄ (pool : Pool S F) (plan : ProbePlan F D) where
  misconfigured-raises :
      (idx : ℕ) (a : Assertion F D) (s : S)
      → is_misconfigured a ≡ true
      → (m : Message F) × (run_assertion pool plan idx a s ≡ (raised (AdapterError.config m), s))
  unfolding run_assertion run_enum run_row_count run_freshness
  misconfigured-raises idx (Assertion.enum column []) s h = (_, refl)
  misconfigured-raises idx (Assertion.row_count none none) s h = (_, refl)
  misconfigured-raises idx (Assertion.freshness column within) s h =
      if-raises (ltb_ℤ within (pos 0)) _ _ s h
    where
      if-raises :
          (b : Bool) (m : Message F) (k : Call S F (AssertionResult F)) (s₁ : S)
          → b ≡ true
          → (n : Message F) × ((if b then raise (AdapterError.config m) else k) s₁
              ≡ (raised (AdapterError.config n), s₁))
      if-raises true m k s₁ e = (m, refl)
      if-raises false m k s₁ e = cc
  misconfigured-raises idx _ s h = cc

  run_from-misconfigured :
      (reliable : IsReliable pool) (idx : ℕ) (before : List (Assertion F D)) (a : Assertion F D)
      (rest : List (Assertion F D)) (s : S)
      → All (λ b. is_misconfigured b ≡ false) before
      → is_misconfigured a ≡ true
      → (m : Message F) × (s' : S) × (run_from pool plan idx (before ++ a ∷ rest) s
          ≡ (raised (AdapterError.config m), s'))
  unfolding run_from ◌>>=◌ after
  run_from-misconfigured reliable idx [] a rest s fine h =
      let (m, e) = misconfigured-raises idx a s h in (m, s, rw (e, run_from, ◌>>=◌, after) refl)
  run_from-misconfigured reliable idx (b ∷ before) a rest s (g, fine) h =
      let (r, s₁, e, at) = run_assertion-IsAnswered pool plan reliable idx b g s in
      let (m, s₂, f) = run_from-misconfigured reliable (suc idx) before a rest s₁ fine h in
      (m, s₂, rw (e, run_from, ◌>>=◌, after) (rw (f, ◌>>=◌, after) refl))

  -- With a pool whose calls do not fail, a misconfigured assertion (an `Enum` without a value, a
  -- `RowCount` without a bound, a `Freshness` of a negative age) after assertions that are none
  -- makes the whole of `execute` raise a configuration error, with no result for any assertion.
  pub execute-misconfigured :
      (reliable : IsReliable pool) (before : List (Assertion F D)) (a : Assertion F D)
      (rest : List (Assertion F D)) (s : S)
      → plan.assertions ≡ before ++ a ∷ rest
      → All (λ b. is_misconfigured b ≡ false) before
      → is_misconfigured a ≡ true
      → (m : Message F) × (s' : S) × (execute pool plan s ≡ (raised (AdapterError.config m), s'))
  unfolding execute ◌>>=◌ after
  execute-misconfigured reliable before a rest s split fine h =
      let (m, s', e) = run_from-misconfigured reliable 0 before a rest s fine h in
      let whole = ap (λ assertions. run_from pool plan 0 assertions s) split ∙ e in
      (m, s', rw (whole, execute, ◌>>=◌, after) refl)
