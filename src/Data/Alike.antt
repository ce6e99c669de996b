-- ===== src/Data/Alike.antt =====
-- Results of the same assertions from two runs.
use ematix_probe.Prelude.{◌≡◌, refl, sym, ◌∙◌, inl, inr, ℕ, List, [], ◌∷◌}
use ematix_probe.Data.{AssertionResult, reduce_verdict}
use ematix_probe.Data.Verdicts.{Decides, reduce_verdict-cons}

module _ {F : Type 0} where
  -- The results of two lists have the same indices and the same verdicts, in order.
  abbrev pub Agree : List (AssertionResult F) → List (AssertionResult F) → Type 0
  Agree [] [] = Unit
  Agree (r ∷ results) (q ∷ others) =
      ((r.assertion_index ≡ q.assertion_index) × (r.verdict ≡ q.verdict)) × Agree results others
  Agree _ _ = ⊥

  pub reduce_verdict-Agree :
      (results others : List (AssertionResult F))
      → Agree results others
      → reduce_verdict results ≡ reduce_verdict others
  reduce_verdict-Agree [] [] a = refl
  reduce_verdict-Agree (r ∷ results) (q ∷ others) ((index, verdict), a) =
      reduce_verdict-cons r results
      ∙ rw (verdict, reduce_verdict-Agree results others a) refl
      ∙ sym (reduce_verdict-cons q others)
  reduce_verdict-Agree [] (q ∷ others) a = absurd a
  reduce_verdict-Agree (r ∷ results) [] a = absurd a

  pub Decides-Agree :
      {P : Type 0} (i : ℕ) (r q : AssertionResult F)
      → Decides i r P
      → Decides i q P
      → (r.assertion_index ≡ q.assertion_index) × (r.verdict ≡ q.verdict)
  Decides-Agree i r q (e, inl (v, p)) (f, inl (w, p')) = (e ∙ sym f, v ∙ sym w)
  Decides-Agree i r q (e, inr (v, p)) (f, inr (w, p')) = (e ∙ sym f, v ∙ sym w)
  Decides-Agree i r q (e, inl (v, p)) (f, inr (w, p')) = absurd (p' p)
  Decides-Agree i r q (e, inr (v, p)) (f, inl (w, p')) = absurd (p p')
