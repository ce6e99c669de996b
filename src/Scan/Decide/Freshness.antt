-- ===== src/Scan/Decide/Freshness.antt =====
-- The `Freshness` assertion.
use ematix_probe.Prelude.{
  ℕ, ℤ, pos, ◌≡◌, inl, inr, refl, String, true, false, Option, none, some, List, [], ◌∷◌, arith,
  somes, All, ltb_ℤ, ◌≤ℤ◌, ≤ℤ_antisymm, ◌-ℤ◌, IsI64, sub_i64_of_IsI64, contains, int_eq, Bool-cases,
}
use ematix_probe.Float.{Float}
use ematix_probe.Data.{Assertion, AssertionResult}
use ematix_probe.Crates.{Kind, TimeUnit, Crates}
use ematix_probe.Scan.Build.{build, build_freshness, column_index}
use ematix_probe.Scan.Cells.{max_ts}
use ematix_probe.Scan.Update.{timestamp_column}
use ematix_probe.Scan.Finalize.{finalize, finalize_freshness, now_secs, ts_to_seconds}
use ematix_probe.Scan.Loops.{IsMax, max_ts-IsMax}
use ematix_probe.Scan.Arms.{freshness-IsArm}
use ematix_probe.Scan.Run.{gather, run-step, outcome_of}
use ematix_probe.Scan.Decide.{Decides, Decides-of_iff, outcome_of-run}

All-contains : (P : ℤ → Type 0) (vs : List ℤ) (v : ℤ) → All P vs → contains vs v ≡ true → P v
All-contains P [] v a h = cc
All-contains P (w ∷ vs) v (p, a) h = elim (Bool-cases (int_eq.beq v w)) [
  | inl e ↦ rw ((int_eq.beq_iff v w).0 e) p
  | inr e ↦ All-contains P vs v a (ground arith)
]

IsMax-unique : (vs : List ℤ) (m n : ℤ) → IsMax (some m) vs → IsMax (some n) vs → m ≡ n
IsMax-unique vs m n (hm, am) (hn, an) =
    ≤ℤ_antisymm m n (All-contains (λ v. v ≤ℤ n) vs m an hm) (All-contains (λ v. v ≤ℤ m) vs n am hn)

module _ (clock : Option ℕ) (unit : TimeUnit) (within : ℤ) where
  -- The age in seconds of a timestamp, as an integer without a bound.
  abbrev pub age : ℤ → ℤ
  age v = now_secs clock -ℤ ts_to_seconds v unit

  -- There is a greatest value, and it is not too old.
  abbrev pub IsFresh : List ℤ → Type 0
  IsFresh values = (m : ℤ) × IsMax (some m) values × (age m ≤ℤ within)

  module _ (F : Type 0) (i : ℕ) (name : String) where
    age-Decides :
        (m : ℤ)
        → IsI64 (age m)
        → Decides {F = F} i (finalize_freshness clock i name unit within (some m)) (age m ≤ℤ within)
    unfolding finalize_freshness
    age-Decides m fits =
        rw (sub_i64_of_IsI64 (now_secs clock) (ts_to_seconds m unit) fits) (ground arith)

    freshness-Decides :
        (values : List ℤ) (max : Option ℤ)
        → IsMax max values
        → All (λ v. IsI64 (age v)) values
        → Decides {F = F} i (finalize_freshness clock i name unit within max) (IsFresh values)
    unfolding finalize_freshness
    freshness-Decides values none e fits = (refl, inr (refl, λ (m, max, _). no_max m (rw e at max)))
      where
        no_max : (m : ℤ) → IsMax (some m) [] → ⊥
        no_max m (h, _) = cc
    freshness-Decides values (some m) max fits =
        Decides-of_iff i (finalize_freshness clock i name unit within (some m)) (λ h. (m, max, h))
          (λ (n, max', h). rw (IsMax-unique values m n max max') h)
          (age-Decides m (All-contains (λ v. IsI64 (age v)) values m fits max.0))

module _ {F : Type 0} (c : Crates F) ⦃fl : Float F⦄ where
  open c use {Schema, RecordBatch, kind, index_of, field_type}

  -- On a timestamp column that the schema has, with `within_seconds` not negative, where the reads
  -- of all batches succeed with the cells given and the age of no value overflows an `i64`:
  -- `Freshness` passes exactly when there is a greatest non-null value of all batches and it is at
  -- most `within_seconds` old by the clock, and fails otherwise, also where there is no value.
  pub freshness-decides :
      (clock : Option ℕ) (i : ℕ) (name : String) (within : ℤ) (unit : TimeUnit) (k : ℕ)
      (schema : Schema) (batches : List RecordBatch) (cells : List (Option ℤ))
      → ltb_ℤ within (pos 0) ≡ false
      → index_of schema name ≡ some k
      → kind (field_type schema k) ≡ Kind.timestamp unit
      → gather (timestamp_column c unit k) batches ≡ some cells
      → All (λ v. IsI64 (age clock unit within v)) (somes cells)
      → (r : AssertionResult F) × (outcome_of c clock i
            (Assertion.freshness name within)
            schema
            batches
          ≡ some r)
        × Decides i r (IsFresh clock unit within (somes cells))
  unfolding build build_freshness column_index finalize
  freshness-decides clock i name within unit k schema batches cells positive found typed read fits =
      (
        finalize_freshness clock i name unit within (max_ts cells none),
        outcome_of-run c clock i (Assertion.freshness name within) schema batches (ground arith)
            (run-step c (freshness-IsArm c name k unit within) batches cells none tt read) refl,
        freshness-Decides clock unit within F i name (somes cells) (max_ts cells none)
            (max_ts-IsMax cells) fits,
      )
