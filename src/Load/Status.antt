-- ===== src/Load/Status.antt =====
-- `eval_status_code_in` of engine/load.rs.
use ematix_probe.Prelude.{
  ℕ, ◌≡◌, ◌≢◌, ◌↔◌, refl, sym, ◌∙◌, true, false, none, some, List, [], ◌∷◌, ◌++◌, arith, All,
  is_empty, contains, contains-to_set, to_set, nat_eq, Option-cases, inl, inr,
}
use ematix_probe.Data.Verdicts.{Decides}
use ematix_probe.Load.Plan.{Sample}
use ematix_probe.Load.Evaluate.{violation, violations, eval_status_code_in}

-- The sample has a status code, and it is one of these.
abbrev pub IsAllowed : List ℕ → Sample → Type 0
IsAllowed allowed s = (code : ℕ) × (s.status_code ≡ some code) × (contains allowed code ≡ true)

is_empty-nil {ℓ} : {A : Type ℓ} (xs : List A) → xs ≢ [] → is_empty xs ≡ false
is_empty-nil [] h = absurd (h refl)
is_empty-nil (x ∷ xs) h = refl

is_empty-append {ℓ} :
    {A : Type ℓ} (xs ys : List A)
    → (is_empty (xs ++ ys) ≡ true) ↔ ((is_empty xs ≡ true) × (is_empty ys ≡ true))
is_empty-append [] ys = ground arith
is_empty-append (x ∷ xs) ys = ground arith

module _ (F : Type 0) (allowed : List ℕ) where
  violation-none_iff :
      (s : Sample) → (is_empty (violation {F = F} (to_set allowed) s) ≡ true) ↔ IsAllowed allowed s
  unfolding violation
  violation-none_iff s = elim (Option-cases s.status_code) [
    | inl e ↦ (
      λ h. let g : false ≡ true = rw (e, violation) at h in cc,
      λ (code, f, k). let g : none ≡ some code = sym e ∙ f in cc,
    )
    | inr (code, e) ↦
        let found : (is_empty (violation {F = F} (to_set allowed) s) ≡ true)
            ↔ (contains allowed code ≡ true) =
          rw (e, violation, contains-to_set allowed code) (ground arith) in
        (
          λ h. (code, e, found.0 h),
          λ (other, f, k). let same : other ≡ code = ground arith in found.1 (rw same at k),
        )
  ]

  violations-none_iff :
      (samples : List Sample)
      → (is_empty (violations {F = F} (to_set allowed) samples) ≡ true)
        ↔ All (IsAllowed allowed) samples
  unfolding violations
  violations-none_iff [] = (λ _. tt, λ _. refl)
  violations-none_iff (s ∷ samples) =
      let (f, g) =
        is_empty-append (violation {F = F} (to_set allowed) s)
          (violations (to_set allowed) samples) in
      let (v, w) = violation-none_iff s in
      let (vs, ws) = violations-none_iff samples in
      (λ h. (v (f h).0, vs (f h).1), λ (a, as'). g (w a, ws as'))

  -- `StatusCodeIn` with a list of codes and samples that are not empty passes exactly when every
  -- sample has a status code and it is in the list, so that a sample without a response violates
  -- it, and fails otherwise.
  pub eval_status_code_in-decides :
      (idx : ℕ) (samples : List Sample)
      → allowed ≢ []
      → samples ≢ []
      → Decides {F = F} idx
          (eval_status_code_in idx allowed samples)
          (All (IsAllowed allowed) samples)
  unfolding eval_status_code_in
  eval_status_code_in-decides idx samples some_code some_sample =
      ground (arith, violations-none_iff samples, is_empty-nil allowed, is_empty-nil samples)
