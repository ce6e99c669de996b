-- ===== src/Postgres/Checks.antt =====
-- The `run_*` methods of `PostgresAdapter` in adapters/data/postgres.rs.
use ematix_probe.Prelude.{
  ℕ, zero, suc, ℤ, pos, String, Bool, false, not, ◌&&◌, Option, none, some, List, [], ◌∷◌,
  if◌then◌else◌, ltb_ℤ, int_eq,
}
use ematix_probe.Message.{Message, lit, str, debug_str, nat, int}
use ematix_probe.Adapter.{AdapterError, returned, raised}
use ematix_probe.Data.{Verdict, AssertionResult}
use ematix_probe.Crates.{ok, err}
use ematix_probe.Call.{Call}
use ematix_probe.Postgres.Pool.{SqlParam, Pool}

module _ {F : Type 0} where
  abbrev pub pass_result : ℕ → AssertionResult F
  pass_result idx = record { assertion_index = idx; verdict = Verdict.pass; message = none }

  abbrev pub fail_result : ℕ → Message F → AssertionResult F
  fail_result idx msg = record { assertion_index = idx; verdict = Verdict.fail; message = some msg }

  -- `if count == 0 { Pass } else { Fail }`
  unfoldable pub judge_count : ℕ → ℤ → Message F → AssertionResult F
  judge_count idx count msg =
      if int_eq.beq count (pos 0) then pass_result idx else fail_result idx msg

  -- the end of `run_row_count`; without a bound the last match is not reached
  unfoldable pub judge_row_count : ℕ → String → Option ℤ → Option ℤ → ℤ → AssertionResult F
  judge_row_count idx table low high count =
      let too_low : Bool = elim low [ none ↦ false | some lo ↦ ltb_ℤ count lo ] in
      let too_high : Bool = elim high [ none ↦ false | some hi ↦ ltb_ℤ hi count ] in
      let bound_desc : Message F = elim low [
        | some lo ↦ elim high [
          | some hi ↦ lit "[" ∷ int lo ∷ lit ", " ∷ int hi ∷ lit "]" ∷ []
          | none ↦ lit ">= " ∷ int lo ∷ []
        ]
        | none ↦ elim high [ some hi ↦ lit "<= " ∷ int hi ∷ [] | none ↦ [] ]
      ] in
      if not too_low && not too_high
      then pass_result idx
      else fail_result idx (
          lit "table "
          ∷ debug_str table
          ∷ lit " has "
          ∷ int count
          ∷ lit " row(s); expected "
          ∷ bound_desc)

  -- `$i, $(i+1), …`, with the text that follows
  unfoldable pub placeholders : ℕ → ℕ → Message F → Message F
  placeholders i zero rest = rest
  placeholders i (suc zero) rest = lit "$" ∷ nat i ∷ rest
  placeholders i (suc (suc n)) rest = lit "$" ∷ nat i ∷ lit ", " ∷ placeholders (suc i) (suc n) rest

  module _ {S : Type 0} (pool : Pool S F) where
    -- `pool.get()` and `query_one`, with the errors mapped
    unfoldable pub count_rows : String → Message F → List (SqlParam F) → Call S F ℤ
    count_rows failed sql params s =
        let (client, s₁) = pool.get s in
        elim client [
          | err e ↦ (raised (AdapterError.connection (lit "acquire failed: " ∷ str e ∷ [])), s₁)
          | ok _ ↦
              let (row, s₂) = pool.query_count sql params s₁ in
              elim row [
                | err e ↦ (raised (AdapterError.query (lit failed ∷ str e ∷ [])), s₂)
                | ok n ↦ (returned n, s₂)
              ]
        ]

    unfoldable pub read_age : Message F → Call S F (Option F)
    read_age sql s =
        let (client, s₁) = pool.get s in
        elim client [
          | err e ↦ (raised (AdapterError.connection (lit "acquire failed: " ∷ str e ∷ [])), s₁)
          | ok _ ↦
              let (row, s₂) = pool.query_age sql s₁ in
              elim row [
                | err e ↦
                    (raised (AdapterError.query (lit "freshness query failed: " ∷ str e ∷ [])), s₂)
                | ok age ↦ (returned age, s₂)
              ]
        ]
