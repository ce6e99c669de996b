-- ===== src/Postgres/Runs.antt =====
-- `PostgresAdapter::execute` of adapters/data/postgres.rs over all its assertions.
use ematix_probe.Prelude.{
  ℕ, suc, ℤ, ◌≡◌, refl, ap, pos, String, Bool, true, false, ◌&&◌, Option, none, some, List, [], ◌∷◌,
  length, All, is_empty, is_none, ltb_ℤ, arith, if◌then◌else◌,
}
use ematix_probe.Message.{Message}
use ematix_probe.Float.{Float}
use ematix_probe.Adapter.{returned}
use ematix_probe.Data.{Assertion, ProbePlan, AssertionResult, summarise}
use ematix_probe.Data.Verdicts.{Numbered}
use ematix_probe.Crates.{ok}
use ematix_probe.Postgres.Pool.{SqlParam, Pool}
use ematix_probe.Call.{Call, ◌>>=◌, after}
use ematix_probe.Postgres.Checks.{count_rows, read_age, judge_count, judge_row_count}
use ematix_probe.Postgres.Execute.{
  run_not_null, run_unique, run_unique_group, run_between, run_regex, run_enum, run_row_count,
  run_freshness, judge_age, run_assertion, run_from, execute,
}

module _ {F S : Type 0} (pool : Pool S F) where
  -- No call of the pool fails.
  pub record IsReliable : Type 0 where
    pub got : (s : S) → (pool.get s).0 ≡ ok tt
    pub counted :
        (sql : Message F) (params : List (SqlParam F)) (s : S)
        → (n : ℤ) × ((pool.query_count sql params s).0 ≡ ok n)
    pub aged : (sql : Message F) (s : S) → (age : Option F) × ((pool.query_age sql s).0 ≡ ok age)

  -- The call returns a value of which `P` holds.
  abbrev Returns : (A : Type 0) → (A → Type 0) → Call S F A → Type 0
  Returns A P m = (s : S) → (a : A) × (s' : S) × (m s ≡ (returned a, s')) × P a

  bind-Returns :
      (A B : Type 0) (P : A → Type 0) (Q : B → Type 0) (m : Call S F A) (k : A → Call S F B)
      → Returns A P m
      → ((a : A) → P a → Returns B Q (k a))
      → Returns B Q (m >>= k)
  unfolding ◌>>=◌ after
  bind-Returns A B P Q m k r t s =
      let (a, s₁, e, p) = r s in let (b, s₂, f, q) = t a p s₁ in (b, s₂, rw (e, ◌>>=◌, after) f, q)

  count_rows-Returns :
      (failed : String) (sql : Message F) (params : List (SqlParam F))
      → IsReliable
      → Returns ℤ (λ n. Unit) (count_rows pool failed sql params)
  unfolding count_rows
  count_rows-Returns failed sql params reliable s =
      let (n, counted) = reliable.counted sql params (pool.get s).1 in
      (
        n,
        (pool.query_count sql params (pool.get s).1).1,
        rw (reliable.got s, count_rows, counted) refl,
        tt,
      )

  read_age-Returns :
      (sql : Message F) → IsReliable → Returns (Option F) (λ age. Unit) (read_age pool sql)
  unfolding read_age
  read_age-Returns sql reliable s =
      let (age, aged) = reliable.aged sql (pool.get s).1 in
      (age, (pool.query_age sql (pool.get s).1).1, rw (reliable.got s, read_age, aged) refl, tt)

-- The assertions that the adapter answers with a configuration error.
abbrev pub is_misconfigured : {F D : Type 0} → Assertion F D → Bool
is_misconfigured (Assertion.enum column allowed) = is_empty allowed
is_misconfigured (Assertion.row_count low high) = is_none low && is_none high
is_misconfigured (Assertion.freshness column within_seconds) = ltb_ℤ within_seconds (pos 0)
is_misconfigured _ = false

module _ {F D S : Type 0} ⦃fl : Float F⦄ (pool : Pool S F) (plan : ProbePlan F D) where
  -- The assertion has a result with its index.
  abbrev IsAnswered : ℕ → Assertion F D → Type 0
  IsAnswered idx a =
      Returns pool (AssertionResult F) (λ r. r.assertion_index ≡ idx)
        (run_assertion pool plan idx a)

  judge_count-index :
      (idx : ℕ) (n : ℤ) (m : Message F) → (judge_count idx n m).assertion_index ≡ idx
  unfolding judge_count
  judge_count-index idx n m = ground arith

  judge_row_count-index :
      (idx : ℕ) (low high : Option ℤ) (n : ℤ)
      → (judge_row_count {F = F} idx plan.table low high n).assertion_index ≡ idx
  unfolding judge_row_count
  judge_row_count-index idx low high n = ground arith

  judge_age-index :
      (idx : ℕ) (column : String) (within : ℤ) (age : Option F)
      → (judge_age pool plan idx column within age).assertion_index ≡ idx
  unfolding judge_age
  judge_age-index idx column within none = refl
  judge_age-index idx column within (some age) = ground arith

  if-Returns :
      (b : Bool) (idx : ℕ) (m k : Call S F (AssertionResult F))
      → b ≡ false
      → Returns pool (AssertionResult F) (λ r. r.assertion_index ≡ idx) k
      → Returns pool (AssertionResult F) (λ r. r.assertion_index ≡ idx) (if b then m else k)
  if-Returns true idx m k h r = cc
  if-Returns false idx m k h r = r

  -- A count and a judgement of it.
  count-IsAnswered :
      (reliable : IsReliable pool) (idx : ℕ) (failed : String) (sql : Message F)
      (params : List (SqlParam F)) (judge : ℤ → AssertionResult F)
      → ((n : ℤ) → (judge n).assertion_index ≡ idx)
      → Returns pool
          (AssertionResult F)
          (λ r. r.assertion_index ≡ idx)
          (count_rows pool failed sql params >>= λ n s. (returned (judge n), s))
  count-IsAnswered reliable idx failed sql params judge at =
      bind-Returns pool ℤ (AssertionResult F) (λ n. Unit) (λ r. r.assertion_index ≡ idx)
        (count_rows pool failed sql params) (λ n s. (returned (judge n), s))
        (count_rows-Returns pool failed sql params reliable) (λ n u s. (judge n, s, refl, at n))

  pub run_assertion-IsAnswered :
      (reliable : IsReliable pool) (idx : ℕ) (a : Assertion F D)
      → is_misconfigured a ≡ false
      → IsAnswered idx a
  unfolding run_assertion run_not_null run_unique run_unique_group run_between run_regex run_enum
      run_row_count run_freshness
  run_assertion-IsAnswered reliable idx (Assertion.not_null column) h =
      count-IsAnswered reliable idx _ _ _ _ (λ n. judge_count-index idx n _)
  run_assertion-IsAnswered reliable idx (Assertion.unique column) h =
      count-IsAnswered reliable idx _ _ _ _ (λ n. judge_count-index idx n _)
  run_assertion-IsAnswered reliable idx (Assertion.between column low high) h =
      count-IsAnswered reliable idx _ _ _ _ (λ n. judge_count-index idx n _)
  run_assertion-IsAnswered reliable idx (Assertion.regex column pattern') h =
      count-IsAnswered reliable idx _ _ _ _ (λ n. judge_count-index idx n _)
  run_assertion-IsAnswered reliable idx (Assertion.unique_group []) h = λ s. (_, s, refl, refl)
  run_assertion-IsAnswered reliable idx (Assertion.unique_group (c ∷ columns)) h =
      count-IsAnswered reliable idx _ _ _ _ (λ n. judge_count-index idx n _)
  run_assertion-IsAnswered reliable idx (Assertion.enum column []) h = cc
  run_assertion-IsAnswered reliable idx (Assertion.enum column (v ∷ allowed)) h =
      count-IsAnswered reliable idx _ _ _ _ (λ n. judge_count-index idx n _)
  run_assertion-IsAnswered reliable idx (Assertion.row_count none none) h = cc
  run_assertion-IsAnswered reliable idx (Assertion.row_count none (some hi)) h =
      count-IsAnswered reliable idx _ _ _ _ (judge_row_count-index idx none (some hi))
  run_assertion-IsAnswered reliable idx (Assertion.row_count (some lo) high) h =
      count-IsAnswered reliable idx _ _ _ _ (judge_row_count-index idx (some lo) high)
  run_assertion-IsAnswered reliable idx (Assertion.freshness column within) h =
      if-Returns (ltb_ℤ within (pos 0)) idx _ _ h (
        bind-Returns pool (Option F) (AssertionResult F) (λ age. Unit)
          (λ r. r.assertion_index ≡ idx) _ _ (read_age-Returns pool _ reliable)
          (λ age u s. (
            judge_age pool plan idx column within age,
            s,
            refl,
            judge_age-index idx column within age,
          )))
  run_assertion-IsAnswered reliable idx (Assertion.percentile_between column p low high) h =
      λ s. (_, s, refl, refl)
  run_assertion-IsAnswered reliable idx (Assertion.cardinality_between column low high) h =
      λ s. (_, s, refl, refl)
  run_assertion-IsAnswered reliable idx (Assertion.schema_match fields) h = λ s. (_, s, refl, refl)

  run_from-Returns :
      (reliable : IsReliable pool) (idx : ℕ) (assertions : List (Assertion F D))
      → All (λ a. is_misconfigured a ≡ false) assertions
      → Returns pool
          (List (AssertionResult F))
          (λ rs. Numbered idx rs × (length rs ≡ length assertions))
          (run_from pool plan idx assertions)
  unfolding run_from
  run_from-Returns reliable idx [] h = λ s. ([], s, refl, (tt, refl))
  run_from-Returns reliable idx (a ∷ assertions) (h, hs) =
      bind-Returns pool (AssertionResult F) (List (AssertionResult F))
        (λ r. r.assertion_index ≡ idx)
        (λ rs. Numbered idx rs × (length rs ≡ suc (length assertions))) _ _
        (run_assertion-IsAnswered reliable idx a h)
        (λ r at.
          bind-Returns pool (List (AssertionResult F)) (List (AssertionResult F))
            (λ rs. Numbered (suc idx) rs × (length rs ≡ length assertions))
            (λ rs. Numbered idx rs × (length rs ≡ suc (length assertions))) _ _
            (run_from-Returns reliable (suc idx) assertions hs)
            (λ rs (numbered, same) s. (r ∷ rs, s, refl, ((at, numbered), ap suc same))))

  -- With a pool whose calls do not fail, on a plan without a misconfigured assertion (an `Enum`
  -- without a value, a `RowCount` without a bound, a `Freshness` of a negative age), `execute`
  -- returns, in every state: one result for each assertion, in their order and with their indices,
  -- and the reduced verdict of them all.
  pub execute-returns :
      (reliable : IsReliable pool)
      → All (λ a. is_misconfigured a ≡ false) plan.assertions
      → (s : S)
      → (results : List (AssertionResult F)) × (s' : S) × (execute pool plan s
          ≡ (returned (summarise results), s'))
        × Numbered 0 results
        × (length results ≡ length plan.assertions)
  unfolding execute ◌>>=◌ after
  execute-returns reliable h s =
      let (results, s', e, (numbered, same)) = run_from-Returns reliable 0 plan.assertions h s in
      (results, s', rw (e, execute, ◌>>=◌, after) refl, numbered, same)
