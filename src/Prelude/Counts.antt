-- ===== src/Prelude/Counts.antt =====
-- How many values a list has more than once, and how many pass a test.
use ematix_probe.Prelude.{
  ℕ, ◌+◌, ◌≤◌, ◌≡◌, ◌≢◌, ◌↔◌, inl, inr, refl, Bool, true, false, Option, none, some, List, [], ◌∷◌,
  arith, count, All, Distinct, Eq, eqb, if◌then◌else◌, string_eq, list_eq, Bool-cases,
}

module _ {ℓ} {A : Type ℓ} where
  pub count-zero_iff : (p : A → Bool) (xs : List A) → (count p xs ≡ 0) ↔ All (λ x. p x ≡ false) xs
  count-zero_iff p [] = ((λ e. tt), λ a. refl)
  count-zero_iff p (x ∷ xs) =
      let (to, from) = count-zero_iff p xs in
      elim (Bool-cases (p x)) [
        | inl yes_ ↦ rw yes_ ((λ e. absurd (omega arith)), λ a. cc)
        | inr no_ ↦ rw no_ ((λ e. (refl, to e)), λ a. from a.1)
      ]

module _ {ℓ} {A : Type ℓ} ⦃e : Eq A⦄ where
  -- How many values the list has more than once: a value counts where it comes for the last time but
  -- one.
  abbrev pub repeated : List A → ℕ
  repeated [] = 0
  repeated (x ∷ xs) = (if eqb (count (e.beq x) xs) 1 then 1 else 0) + repeated xs

  pub count-zero_others : (x : A) (xs : List A) → (count (e.beq x) xs ≡ 0) ↔ All (λ y. x ≢ y) xs
  count-zero_others x [] = ((λ h. tt), λ a. refl)
  count-zero_others x (y ∷ ys) =
      let (to, from) = count-zero_others x ys in
      let (same, is_same) = e.beq_iff x y in
      elim (Bool-cases (e.beq x y)) [
        | inl yes_ ↦ rw yes_ ((λ h. absurd (omega arith)), λ a. absurd (a.0 (same yes_)))
        | inr no_ ↦ rw no_ ((λ h. ((λ q. let t = is_same q in cc), to h)), λ a. from a.1)
      ]

  pub count-le_one : (x : A) (xs : List A) → Distinct xs → count (e.beq x) xs ≤ 1
  count-le_one x [] d = omega arith
  count-le_one x (y ∷ ys) (others, d) =
      let rest = count-le_one x ys d in
      elim (Bool-cases (e.beq x y)) [
        | inl yes_ ↦
            let same : x ≡ y = (e.beq_iff x y).0 yes_ in
            let none_left : count (e.beq x) ys ≡ 0 = (count-zero_others x ys).1 (rw same others) in
            rw yes_ (omega arith)
        | inr no_ ↦ rw no_ rest
      ]

  pub repeated-zero_iff : (xs : List A) → (repeated xs ≡ 0) ↔ Distinct xs
  repeated-zero_iff [] = ((λ h. tt), λ d. refl)
  repeated-zero_iff (x ∷ xs) =
      let (to, from) = repeated-zero_iff xs in
      let (others, no_others) = count-zero_others x xs in
      (
        (λ h.
            let d : Distinct xs = to (omega arith) in
            let few = count-le_one x xs d in
            let not_one : eqb (count (e.beq x) xs) 1 ≡ false = ground arith in
            (others (ground arith), d)),
        λ d. let nothing = no_others d.0 in let rest = from d.1 in ground arith,
      )

module _ {A : Type 0} ⦃e : Eq A⦄ where
  abbrev pub option_beq : Option A → Option A → Bool
  option_beq none none = true
  option_beq (some a) (some b) = e.beq a b
  option_beq _ _ = false

  pub option_beq_iff : (a b : Option A) → (option_beq a b ≡ true) ↔ (a ≡ b)
  option_beq_iff none none = ground arith
  option_beq_iff none (some b) = ground arith
  option_beq_iff (some a) none = ground arith
  option_beq_iff (some a) (some b) = ground (arith, e.beq_iff a b)

instance abbrev pub option_eq : {A : Type 0} ⦃e : Eq A⦄ → Eq (Option A)
option_eq ⦃e⦄ = record { beq = option_beq; beq_iff = option_beq_iff }

pub some_injective : {A : Type 0} (a b : A) → some a ≡ some b → a ≡ b
some_injective a b e = cc
