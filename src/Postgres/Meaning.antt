-- ===== src/Postgres/Meaning.antt =====
-- What the checks of adapters/data/postgres.rs decide about a table.
use ematix_probe.Prelude.{
  ◌<◌, ◌^◌, ℕ, suc, ℤ, ◌≡◌, ◌≢◌, ◌↔◌, refl, pos, String, Bool, true, false, not, ◌&&◌, ◌||◌, Option,
  none, some, List, [], ◌∷◌, arith, length, count, contains, is_none, All, Distinct, Eq, int_eq,
  string_eq, list_eq,
}
use ematix_probe.Message.{Message}
use ematix_probe.Float.{Float}
use ematix_probe.Adapter.{returned}
use ematix_probe.Call.{Call, ◌>>=◌, after}
use ematix_probe.Crates.{ok}
use ematix_probe.Data.{Assertion, ProbePlan, AssertionResult, summarise}
use ematix_probe.Data.Verdicts.{Decides}
use ematix_probe.Scan.Decide.{Decides-of_iff}
use ematix_probe.Scan.Decide.Bounds.{AtLeast, AtMost}
use ematix_probe.Postgres.Pool.{SqlParam, Pool}
use ematix_probe.Postgres.Checks.{count_rows, judge_count, judge_row_count}
use ematix_probe.Postgres.Execute.{
  run_not_null, run_unique, run_unique_group, run_between, run_regex, run_enum, run_row_count,
  run_assertion, run_from, execute,
}
use ematix_probe.Prelude.Counts.{count-zero_iff, repeated-zero_iff, option_eq}
use ematix_probe.Postgres.Cells.{Asks}
use ematix_probe.Postgres.Tables.{Table, cells, keys, passes, HoldsTable}

-- The assertions that are answered by counting rows of the table, where they have arguments to count
-- by, fewer than 2^16 of them, and name columns of the table, of a type the query can compare.
abbrev pub IsCounted : {F D Row Value : Type 0} → Table F Row Value → Assertion F D → Type 0
IsCounted table (Assertion.not_null column) = table.has column ≡ true
IsCounted table (Assertion.unique column) = table.has column ≡ true
IsCounted table (Assertion.unique_group columns) =
    (columns ≢ []) × All (λ c. table.has c ≡ true) columns
IsCounted table (Assertion.between column low high) =
    (table.has column ≡ true) × (table.is_number column ≡ true)
IsCounted table (Assertion.regex column pattern') =
    (table.has column ≡ true) × (table.is_text column ≡ true) × (table.is_pattern pattern' ≡ true)
IsCounted table (Assertion.enum column allowed) =
    (table.has column ≡ true)
    × (table.is_text column ≡ true)
    × (allowed ≢ [])
    × (length allowed < 2 ^ 16)
IsCounted table (Assertion.row_count low high) = (is_none low && is_none high) ≡ false
IsCounted table _ = ⊥

module _ {F : Type 0} where
  judge_count-Decides :
      (idx n : ℕ) (m : Message F) → Decides idx (judge_count idx (pos n) m) (n ≡ 0)
  unfolding judge_count
  judge_count-Decides idx n m = ground arith

module _ (F : Type 0) where
  judge_row_count-Decides :
      (idx : ℕ) (table : String) (low high : Option ℤ) (n : ℕ)
      → Decides {F = F} idx
          (judge_row_count idx table low high (pos n))
          (AtLeast low n × AtMost high n)
  unfolding judge_row_count
  judge_row_count-Decides idx table none none n = ground arith
  judge_row_count-Decides idx table none (some hi) n = ground arith
  judge_row_count-Decides idx table (some lo) none n = ground arith
  judge_row_count-Decides idx table (some lo) (some hi) n = ground arith

module _ {F Row Value : Type 0} ⦃fl : Float F⦄ (table : Table F Row Value) where
  passes-Asks :
      (p : Value → Bool) (P : Value → Type 0) (cs : List (Option Value))
      → ((v : Value) → (p v ≡ false) ↔ P v)
      → All (λ c. passes table p c ≡ false) cs ↔ All (Asks P) cs
  passes-Asks p P [] h = ((λ a. tt), λ a. tt)
  passes-Asks p P (none ∷ cs) h =
      let (to, from) = passes-Asks p P cs h in ((λ a. (tt, to a.1)), λ a. (refl, from a.1))
  passes-Asks p P (some v ∷ cs) h =
      let (to, from) = passes-Asks p P cs h in
      ((λ a. ((h v).0 a.0, to a.1)), λ a. ((h v).1 a.0, from a.1))

  -- No cell passes the test exactly when each has what it asks.
  count-passes_iff :
      (p : Value → Bool) (P : Value → Type 0) (column : String)
      → ((v : Value) → (p v ≡ false) ↔ P v)
      → (count (passes table p) (cells table column) ≡ 0) ↔ All (Asks P) (cells table column)
  count-passes_iff p P column h =
      let (to, from) = passes-Asks p P (cells table column) h in
      let (zero_to, zero_from) = count-zero_iff (passes table p) (cells table column) in
      ((λ e. to (zero_to e)), λ a. zero_from (from a))

not-false_iff : (b : Bool) → (not b ≡ false) ↔ (b ≡ true)
not-false_iff true = ground arith
not-false_iff false = ground arith

or-false_iff : (a b : Bool) → ((a || b) ≡ false) ↔ ((a ≡ false) × (b ≡ false))
or-false_iff true b = ground arith
or-false_iff false b = ground arith

module _ {F D Row Value : Type 0} ⦃fl : Float F⦄ (table : Table F Row Value) where
  -- What the assertion asks of the table. NULL is a value for `Unique` and `UniqueGroup`, and for the
  -- others a cell that is NULL asks nothing.
  abbrev pub Satisfies : Assertion F D → Type 0
  Satisfies (Assertion.not_null column) = All (λ c. is_none c ≡ false) (cells table column)
  Satisfies (Assertion.unique column) = Distinct (cells table column)
  Satisfies (Assertion.unique_group columns) = Distinct (keys table columns)
  Satisfies (Assertion.between column low high) =
      All
        (Asks λ v.
          (table.less (table.number v) low ≡ false) × (table.less high (table.number v) ≡ false))
        (cells table column)
  Satisfies (Assertion.regex column pattern') =
      All (Asks λ v. table.matches pattern' (table.text v) ≡ true) (cells table column)
  Satisfies (Assertion.enum column allowed) =
      All (Asks λ v. contains allowed (table.text v) ≡ true) (cells table column)
  Satisfies (Assertion.row_count low high) =
      AtLeast low (length table.rows) × AtMost high (length table.rows)
  Satisfies _ = Unit

  -- Each result decides what its assertion asks, with the indices from `idx` on.
  abbrev pub AllDecided : ℕ → List (Assertion F D) → List (AssertionResult F) → Type 0
  AllDecided idx [] [] = Unit
  AllDecided idx (a ∷ assertions) (r ∷ results) =
      Decides idx r (Satisfies a) × AllDecided (suc idx) assertions results
  AllDecided idx _ _ = ⊥

module _ {F D S Row Value : Type 0} ⦃fl : Float F⦄ ⦃same : Eq Value⦄ (pool : Pool S F)
    (plan : ProbePlan F D) (table : Table F Row Value) (db : HoldsTable pool plan table) where
  -- The call returns a result that decides the statement.
  abbrev Answers : ℕ → Type 0 → S → Call S F (AssertionResult F) → Type 0
  Answers idx P s m =
      (r : AssertionResult F) × (s' : S) × (m s ≡ (returned r, s')) × Decides idx r P

  count-Answers :
      (idx n : ℕ) (P : Type 0) (failed : String) (sql : Message F) (params : List (SqlParam F))
      (s : S) (judge : ℤ → AssertionResult F)
      → (pool.query_count sql params (pool.get s).1).0 ≡ ok (pos n)
      → Decides idx (judge (pos n)) P
      → Answers idx P s (count_rows pool failed sql params >>= λ k s'. (returned (judge k), s'))
  unfolding count_rows ◌>>=◌ after
  count-Answers idx n P failed sql params s judge e d = (
    judge (pos n),
    (pool.query_count sql params (pool.get s).1).1,
    rw (db.got s, ◌>>=◌, count_rows, e, after) refl,
    d,
  )

  -- A check that passes at a count of 0.
  zero-Answers :
      (idx n : ℕ) (P : Type 0) (failed : String) (sql : Message F) (params : List (SqlParam F))
      (s : S) (m : ℤ → Message F)
      → (pool.query_count sql params (pool.get s).1).0 ≡ ok (pos n)
      → (n ≡ 0) ↔ P
      → Answers idx P s
          (count_rows pool failed sql params >>= λ k s'. (returned (judge_count idx k (m k)), s'))
  zero-Answers idx n P failed sql params s m e iff =
      count-Answers idx n P failed sql params s (λ k. judge_count idx k (m k)) e
        (Decides-of_iff idx (judge_count idx (pos n) (m (pos n))) iff.0 iff.1
          (judge_count-Decides idx n (m (pos n))))

  run_assertion-Answers :
      (idx : ℕ) (a : Assertion F D) (s : S)
      → IsCounted table a
      → Answers idx (Satisfies table a) s (run_assertion pool plan idx a)
  unfolding run_assertion run_not_null run_unique run_unique_group run_between run_regex run_enum
      run_row_count
  run_assertion-Answers idx (Assertion.not_null column) s h =
      zero-Answers idx _ _ _ _ _ s _ (db.counts_null column _ h)
        (count-zero_iff is_none (cells table column))
  run_assertion-Answers idx (Assertion.unique column) s h =
      zero-Answers idx _ _ _ _ _ s _ (db.counts_repeated column _ h)
        (repeated-zero_iff (cells table column))
  run_assertion-Answers idx (Assertion.unique_group []) s (h, _) = absurd (h refl)
  run_assertion-Answers idx (Assertion.unique_group (c ∷ columns)) s (h, all) =
      zero-Answers idx _ _ _ _ _ s _ (db.counts_repeated_keys (c ∷ columns) _ h all)
        (repeated-zero_iff (keys table (c ∷ columns)))
  run_assertion-Answers idx (Assertion.between column low high) s (h, t) =
      zero-Answers idx _ _ _ _ _ s _ (db.counts_outside column low high _ h t)
        (count-passes_iff table _ _ column (λ v. or-false_iff _ _))
  run_assertion-Answers idx (Assertion.regex column pattern') s (h, t, r) =
      zero-Answers idx _ _ _ _ _ s _ (db.counts_unmatched column pattern' _ h t r)
        (count-passes_iff table _ _ column (λ v. not-false_iff _))
  run_assertion-Answers idx (Assertion.enum column []) s (h, t, n, few) = absurd (n refl)
  run_assertion-Answers idx (Assertion.enum column (v ∷ allowed)) s (h, t, n, few) =
      zero-Answers idx _ _ _ _ _ s _ (db.counts_not_in column (v ∷ allowed) _ h t n few)
        (count-passes_iff table _ _ column (λ w. not-false_iff _))
  run_assertion-Answers idx (Assertion.row_count none none) s h = cc
  run_assertion-Answers idx (Assertion.row_count none (some hi)) s h =
      count-Answers idx _ _ _ _ _ s _ (db.counts_all _)
        (judge_row_count-Decides F idx plan.table none (some hi) (length table.rows))
  run_assertion-Answers idx (Assertion.row_count (some lo) high) s h =
      count-Answers idx _ _ _ _ _ s _ (db.counts_all _)
        (judge_row_count-Decides F idx plan.table (some lo) high (length table.rows))
  run_assertion-Answers idx (Assertion.freshness column within) s h = absurd h
  run_assertion-Answers idx (Assertion.percentile_between column p low high) s h = absurd h
  run_assertion-Answers idx (Assertion.cardinality_between column low high) s h = absurd h
  run_assertion-Answers idx (Assertion.schema_match fields) s h = absurd h

  run_from-Answers :
      (idx : ℕ) (assertions : List (Assertion F D)) (s : S)
      → All (IsCounted table) assertions
      → (results : List (AssertionResult F)) × (s' : S) × (run_from pool plan idx assertions s
          ≡ (returned results, s'))
        × AllDecided table idx assertions results
  unfolding run_from ◌>>=◌ after
  run_from-Answers idx [] s h = ([], s, refl, tt)
  run_from-Answers idx (a ∷ assertions) s (h, hs) =
      let (r, s₁, one, d) = run_assertion-Answers idx a s h in
      let (results, s₂, rest, ds) = run_from-Answers (suc idx) assertions s₁ hs in
      (r ∷ results, s₂, rw (one, run_from, ◌>>=◌, after) (rw (rest, ◌>>=◌, after) refl), (d, ds))

  -- On a database that is reached and counts in the plan's table as PostgreSQL documents (HoldsTable),
  -- and a plan of `NotNull`, `Unique`, `UniqueGroup`, `Between`, `Regex`, `Enum` and `RowCount`
  -- assertions with something to count by (a pattern that is one, fewer than 2^16 allowed values), on
  -- columns the table has and of a fitting type, `execute` returns a result for each assertion, in their
  -- order and with their indices, and the reduced verdict: a pass exactly if the table satisfies the
  -- assertion, else a fail. `NotNull` asks that no cell is NULL; `Unique` and `UniqueGroup` that no
  -- two rows have equal cells, where NULL equals NULL; `Between`, `Regex` and `Enum` ask of each cell
  -- that is not NULL; `RowCount` asks of the number of rows.
  pub execute-decides :
      (s : S)
      → All (IsCounted table) plan.assertions
      → (results : List (AssertionResult F)) × (s' : S) × (execute pool plan s
          ≡ (returned (summarise results), s'))
        × AllDecided table 0 plan.assertions results
  unfolding execute ◌>>=◌ after
  execute-decides s h =
      let (results, s', e, d) = run_from-Answers 0 plan.assertions s h in
      (results, s', rw (e, execute, ◌>>=◌, after) refl, d)
