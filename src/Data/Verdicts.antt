-- ===== src/Data/Verdicts.antt =====
-- `reduce_verdict` of engine/data.rs against what its comment promises.
use ematix_probe.Prelude.{
  ℕ, suc, ◌≤◌, ◌≡◌, refl, sym, ap, ◌∙◌, ◌⊎◌, inl, inr, Bool, true, List, [], ◌∷◌, ◌++◌, arith, any,
  All, leb, if◌then◌else◌,
}
use ematix_probe.Data.{Verdict, AssertionResult, reduce_verdict, verdict_eq}

-- The result carries the index, and it is `Pass` where `P` holds and `Fail` where `P` does not.
abbrev pub Decides {ℓ} : {F : Type 0} → ℕ → AssertionResult F → Type ℓ → Type ℓ
Decides i r P =
    (r.assertion_index ≡ i)
    × (((r.verdict ≡ Verdict.pass) × P) ⊎ ((r.verdict ≡ Verdict.fail) × (¬ P)))

-- The results have the indices from `i` on.
abbrev pub Numbered : {F : Type 0} → ℕ → List (AssertionResult F) → Type 0
Numbered i [] = Unit
Numbered i (r ∷ rs) = (r.assertion_index ≡ i) × Numbered (suc i) rs

-- how bad a verdict is, and the worse of two
abbrev pub severity : Verdict → ℕ
severity Verdict.pass = 0
severity Verdict.fail = 1
severity Verdict.error = 2

unfoldable pub worse : Verdict → Verdict → Verdict
worse v w = if leb (severity v) (severity w) then w else v

abbrev pub Exists {ℓ} : {A : Type ℓ} → (A → Type 0) → List A → Type 0
Exists P [] = ⊥
Exists P (x ∷ xs) = P x ⊎ Exists P xs

worse_assoc : (u v w : Verdict) → worse (worse u v) w ≡ worse u (worse v w)
unfolding worse
worse_assoc Verdict.pass v w = ground arith
worse_assoc Verdict.fail v w = ground arith
worse_assoc Verdict.error v w = ground arith

worse_bounds :
    (v w : Verdict)
    → (severity v ≤ severity (worse v w))
      × (severity w ≤ severity (worse v w))
      × ((worse v w ≡ v) ⊎ (worse v w ≡ w))
unfolding worse
worse_bounds v w = ground arith

worse-pass : (v : Verdict) → v ≡ worse Verdict.pass v
unfolding worse
worse-pass Verdict.pass = refl
worse-pass Verdict.fail = refl
worse-pass Verdict.error = refl

module _ {F : Type 0} where
  pub reduce_verdict-cons :
      (r : AssertionResult F) (rs : List (AssertionResult F))
      → reduce_verdict (r ∷ rs) ≡ worse r.verdict (reduce_verdict rs)
  unfolding reduce_verdict worse
  reduce_verdict-cons r rs =
      first r.verdict (any (λ q. verdict_eq q.verdict Verdict.error) rs)
        (any (λ q. verdict_eq q.verdict Verdict.fail) rs)
    where
      first :
          (v : Verdict) (errors fails : Bool)
          → (if if verdict_eq v Verdict.error then true else errors
              then Verdict.error
              else if if verdict_eq v Verdict.fail then true else fails
              then Verdict.fail
              else Verdict.pass)
            ≡ worse v
                (if errors then Verdict.error else if fails then Verdict.fail else Verdict.pass)
      first Verdict.pass errors fails = ground arith
      first Verdict.fail errors fails = ground arith
      first Verdict.error errors fails = ground arith

  All-severity_le :
      (v w : Verdict) (rs : List (AssertionResult F))
      → severity v ≤ severity w
      → All (λ r. severity r.verdict ≤ severity v) rs
      → All (λ r. severity r.verdict ≤ severity w) rs
  All-severity_le v w [] h a = tt
  All-severity_le v w (r ∷ rs) h (b, a) = (omega arith, All-severity_le v w rs h a)

  -- The verdict is at least as bad as each result's, and it is `Pass` or some result's.
  abbrev pub IsWorst : Verdict → List (AssertionResult F) → Type 0
  IsWorst v rs =
      All (λ r. severity r.verdict ≤ severity v) rs
      × ((v ≡ Verdict.pass) ⊎ Exists (λ r. r.verdict ≡ v) rs)

  worse-IsWorst :
      (r : AssertionResult F) (rs : List (AssertionResult F)) (v w : Verdict)
      → w ≡ worse r.verdict v
      → IsWorst v rs
      → IsWorst w (r ∷ rs)
  worse-IsWorst r rs v w e (all_rs, some_rs) =
      let (h, k, which) = worse_bounds r.verdict v in
      (
        (rw e h, All-severity_le v w rs (rw e k) all_rs),
        (elim which [
          | inl first ↦ inr (inl (sym (e ∙ first)))
          | inr rest ↦ elim some_rs [
            | inl p ↦ inl (e ∙ rest ∙ p)
            | inr x ↦ inr (inr (rw (sym rest ∙ sym e) at x))
          ]
        ]),
      )

  -- The reduced verdict is at least as bad as each result's, where `Error` is worse than `Fail` and
  -- `Fail` worse than `Pass`, and it is `Pass` or the verdict of some result.
  pub reduce_verdict-IsWorst : (rs : List (AssertionResult F)) → IsWorst (reduce_verdict rs) rs
  unfolding reduce_verdict
  reduce_verdict-IsWorst [] = (tt, inl refl)
  reduce_verdict-IsWorst (r ∷ rs) =
      worse-IsWorst r rs (reduce_verdict rs) (reduce_verdict (r ∷ rs)) (reduce_verdict-cons r rs)
        (reduce_verdict-IsWorst rs)

  -- Of two lists of results together it is the worse of their verdicts.
  pub reduce_verdict-append :
      (rs qs : List (AssertionResult F))
      → reduce_verdict (rs ++ qs) ≡ worse (reduce_verdict rs) (reduce_verdict qs)
  unfolding reduce_verdict
  reduce_verdict-append [] qs = worse-pass (reduce_verdict qs)
  reduce_verdict-append (r ∷ rs) qs =
      reduce_verdict-cons r (rs ++ qs)
      ∙ ap (worse r.verdict) (reduce_verdict-append rs qs)
      ∙ sym (worse_assoc r.verdict (reduce_verdict rs) (reduce_verdict qs))
      ∙ ap (λ v. worse v (reduce_verdict qs)) (sym (reduce_verdict-cons r rs))
