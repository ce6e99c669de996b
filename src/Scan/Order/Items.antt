-- ===== src/Scan/Order/Items.antt =====
-- Lists that hold the same items, in any order, and what does not depend on the order.
use ematix_probe.Prelude.{
  suc, ℤ, ◌≤◌, ◌≡◌, ◌≢◌, refl, sym, ◌∙◌, inl, inr, Bool, true, false, not, Option, none, some, List,
  [], ◌∷◌, arith, length, count, filter, somes, contains, All, Distinct, Eq, int_eq, string_eq,
  list_eq, ltb, Bool-cases, ◌≤ℤ◌,
}
use ematix_probe.Prelude.Counts.{count-zero_iff, count-zero_others, count-le_one}
use ematix_probe.Scan.Loops.{IsMax}
use ematix_probe.Scan.Decide.Bounds.{ListsOnce}

module _ {A : Type 0} where
  -- Every test passes on as many items of the one as of the other.
  abbrev pub SameItems : List A → List A → Type 0
  SameItems xs ys = (p : A → Bool) → count p xs ≡ count p ys

  count-true : (xs : List A) → count (λ x. true) xs ≡ length xs
  count-true [] = refl
  count-true (x ∷ xs) = omega (arith, count-true xs)

  pub SameItems-length : (xs ys : List A) → SameItems xs ys → length xs ≡ length ys
  SameItems-length xs ys h = sym (count-true xs) ∙ h (λ x. true) ∙ count-true ys

  pub SameItems-sym : (xs ys : List A) → SameItems xs ys → SameItems ys xs
  SameItems-sym xs ys h p = sym (h p)

  -- a test of the value of a cell
  abbrev on_value : (A → Bool) → Option A → Bool
  on_value p none = false
  on_value p (some a) = p a

  count-somes : (p : A → Bool) (cs : List (Option A)) → count p (somes cs) ≡ count (on_value p) cs
  count-somes p [] = refl
  count-somes p (none ∷ cs) = count-somes p cs
  count-somes p (some a ∷ cs) = ground (arith, count-somes p cs)

  All-imp : (P Q : A → Type 0) (xs : List A) → ((x : A) → P x → Q x) → All P xs → All Q xs
  All-imp P Q [] f a = tt
  All-imp P Q (x ∷ xs) f (p, a) = (f x p, All-imp P Q xs f a)

  All-both : (P Q : A → Type 0) (xs : List A) → All P xs → All Q xs → All (λ x. P x × Q x) xs
  All-both P Q [] a b = tt
  All-both P Q (x ∷ xs) (p, a) (q, b) = ((p, q), All-both P Q xs a b)

  -- Where no item of the one passes a test, none of the other does, and the same with all.
  All-false :
      (p : A → Bool) (xs ys : List A)
      → SameItems xs ys
      → All (λ x. p x ≡ false) xs
      → All (λ x. p x ≡ false) ys
  All-false p xs ys h a = (count-zero_iff p ys).0 (sym (h p) ∙ (count-zero_iff p xs).1 a)

  pub All-true :
      (p : A → Bool) (xs ys : List A)
      → SameItems xs ys
      → All (λ x. p x ≡ true) xs
      → All (λ x. p x ≡ true) ys
  All-true p xs ys h a =
      All-imp _ _ ys (λ x e. ground arith)
        (All-false (λ x. not (p x)) xs ys h (All-imp _ _ xs (λ x e. ground arith) a))

  pub All-neither :
      (p q : A → Bool) (xs ys : List A)
      → SameItems xs ys
      → All (λ x. (p x ≡ false) × (q x ≡ false)) xs
      → All (λ x. (p x ≡ false) × (q x ≡ false)) ys
  All-neither p q xs ys h a =
      All-both _ _ ys (All-false p xs ys h (All-imp _ _ xs (λ x e. e.0) a))
        (All-false q xs ys h (All-imp _ _ xs (λ x e. e.1) a))

pub SameItems-somes :
    {A : Type 0} (xs ys : List (Option A)) → SameItems xs ys → SameItems (somes xs) (somes ys)
SameItems-somes xs ys h p = count-somes p xs ∙ h (on_value p) ∙ sym (count-somes p ys)

module _ {A : Type 0} ⦃e : Eq A⦄ where
  contains-count : (x : A) (xs : List A) → contains xs x ≡ ltb 0 (count (e.beq x) xs)
  contains-count x [] = refl
  contains-count x (y ∷ ys) = ground (arith, contains-count x ys)

  SameItems-contains : (xs ys : List A) → SameItems xs ys → (x : A) → contains xs x ≡ contains ys x
  SameItems-contains xs ys h x = rw (contains-count x xs, contains-count x ys, h (e.beq x)) refl

  Distinct-of_counts : (xs : List A) → ((x : A) → count (e.beq x) xs ≤ 1) → Distinct xs
  Distinct-of_counts [] h = tt
  Distinct-of_counts (x ∷ xs) h =
      let here : e.beq x x ≡ true = (e.beq_iff x x).1 refl in
      let first = h x in
      (
        (count-zero_others x xs).0 (ground arith),
        Distinct-of_counts xs λ y. let more = h y in ground arith,
      )

  pub Distinct-SameItems : (xs ys : List A) → SameItems xs ys → Distinct xs → Distinct ys
  Distinct-SameItems xs ys h d =
      Distinct-of_counts ys
        λ x. let few = count-le_one x xs d in let same = h (e.beq x) in omega arith

  All-contains : (P : A → Type 0) (xs : List A) (x : A) → All P xs → contains xs x ≡ true → P x
  All-contains P [] x a h = cc
  All-contains P (y ∷ ys) x (p, a) h = elim (Bool-cases (e.beq x y)) [
    | inl same ↦ rw ((e.beq_iff x y).0 same) p
    | inr other ↦ All-contains P ys x a (ground arith)
  ]

  All-of_contains :
      {P : A → Type 0} (xs : List A) → ((x : A) → contains xs x ≡ true → P x) → All P xs
  All-of_contains [] h = tt
  All-of_contains (x ∷ xs) h =
      let here : e.beq x x ≡ true = (e.beq_iff x x).1 refl in
      (h x (ground arith), All-of_contains xs λ y there. h y (ground arith))

  pub All-SameItems : (P : A → Type 0) (xs ys : List A) → SameItems xs ys → All P xs → All P ys
  All-SameItems P xs ys h a =
      All-of_contains ys λ x there. All-contains P xs x a (SameItems-contains xs ys h x ∙ there)

  -- the items that are not the one given
  abbrev without : A → List A → List A
  without x xs = filter (λ y. not (e.beq x y)) xs

  length-without-le : (x : A) (xs : List A) → length (without x xs) ≤ length xs
  length-without-le x [] = omega arith
  length-without-le x (y ∷ ys) = ground (arith, length-without-le x ys)

  length-without :
      (x : A) (xs : List A) → contains xs x ≡ true → suc (length (without x xs)) ≤ length xs
  length-without x [] h = cc
  length-without x (y ∷ ys) h = ground (arith, length-without x ys, length-without-le x ys)

  contains-without :
      (x y : A) (xs : List A) → x ≢ y → contains xs y ≡ true → contains (without x xs) y ≡ true
  contains-without x y [] other h = cc
  contains-without x y (z ∷ zs) other h = elim (Bool-cases (e.beq y z)) [
    | inl same ↦
        let kept : e.beq x z ≡ false = elim (Bool-cases (e.beq x z)) [
          | inl t ↦ absurd (other ((e.beq_iff x z).0 t ∙ sym ((e.beq_iff y z).0 same)))
          | inr t ↦ t
        ] in
        ground arith
    | inr differs ↦ let rest = contains-without x y zs other (ground arith) in ground arith
  ]

  -- Distinct items of a list are no more than it has.
  length-Distinct-le :
      (xs ys : List A)
      → Distinct xs
      → ((x : A) → contains xs x ≡ true → contains ys x ≡ true)
      → length xs ≤ length ys
  length-Distinct-le [] ys d h = omega arith
  length-Distinct-le (x ∷ xs) ys (others, d) h =
      let here : e.beq x x ≡ true = (e.beq_iff x x).1 refl in
      let fewer = length-without x ys (h x (ground arith)) in
      let rest = length-Distinct-le xs (without x ys) d λ y there.
        contains-without x y ys (All-contains _ xs y others there) (h y (ground arith)) in
      omega arith

  -- Two lists of the distinct values of the same items are equally long.
  pub ListsOnce-length :
      (xs ys : List A) (ds es : List A)
      → SameItems xs ys
      → ListsOnce ds xs
      → ListsOnce es ys
      → length ds ≡ length es
  ListsOnce-length xs ys ds es h (d, ds_of) (f, es_of) =
      let there = SameItems-contains xs ys h in
      let up = length-Distinct-le ds es d λ x a. es_of x ∙ sym (there x) ∙ sym (ds_of x) ∙ a in
      let down = length-Distinct-le es ds f λ x a. ds_of x ∙ there x ∙ sym (es_of x) ∙ a in
      omega arith

pub IsMax-SameItems :
    (xs ys : List ℤ) (m : ℤ) → SameItems xs ys → IsMax (some m) xs → IsMax (some m) ys
IsMax-SameItems xs ys m h (found, above) =
    (sym (SameItems-contains xs ys h m) ∙ found, All-SameItems (λ v. v ≤ℤ m) xs ys h above)
