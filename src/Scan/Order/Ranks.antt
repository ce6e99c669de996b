-- ===== src/Scan/Order/Ranks.antt =====
-- The value at a rank of a sorted list, which does not depend on how the list was arranged.
use ematix_probe.Prelude.{
  ℕ, zero, suc, ◌≤◌, ◌≡◌, ◌↔◌, sym, ◌∙◌, inl, inr, true, false, some, List, [], ◌∷◌, arith, count,
  get_elem?, All, Bool-cases,
}
use ematix_probe.Prelude.Counts.{count-zero_iff}
use ematix_probe.Float.{Float, IsIeee}
use ematix_probe.Scan.Sorting.{IsSorted, NoNan}
use ematix_probe.Scan.Decide.Percentile.{IsArranged}
use ematix_probe.Scan.Order.Items.{SameItems, SameItems-sym, All-true}

All-get_elem? :
    {A : Type 0} (P : A → Type 0) (xs : List A) (i : ℕ) (x : A)
    → All P xs
    → get_elem? xs i ≡ some x
    → P x
All-get_elem? P [] i x a at = cc
All-get_elem? P (y ∷ ys) zero x (p, a) at = let same : y ≡ x = cc in rw same at p
All-get_elem? P (y ∷ ys) (suc i) x (p, a) at = All-get_elem? P ys i x a at

module _ {F : Type 0} ⦃fl : Float F⦄ (ieee : IsIeee F) where
  -- The values up to a rank are at most the value there.
  count-le-rank :
      (xs : List F) (i : ℕ) (x : F)
      → IsSorted xs
      → get_elem? xs i ≡ some x
      → fl.le x x ≡ true
      → suc i ≤ count (λ y. fl.le y x) xs
  count-le-rank [] i x s at n = cc
  count-le-rank (y ∷ ys) zero x (first, s) at n =
      let same : y ≡ x = cc in let test : fl.le y x ≡ true = rw same n in ground arith
  count-le-rank (y ∷ ys) (suc i) x (first, s) at n =
      let test : fl.le y x ≡ true = All-get_elem? (λ z. fl.le y z ≡ true) ys i x first at in
      let rest = count-le-rank ys i x s at n in ground arith

  none_below :
      (x w : F) (ys : List F)
      → fl.le x w ≡ false
      → All (λ y. fl.le x y ≡ true) ys
      → All (λ y. fl.le y w ≡ false) ys
  none_below x w [] h a = tt
  none_below x w (y ∷ ys) h (p, a) = (
    elim (Bool-cases (fl.le y w)) [ inl t ↦ let up = ieee.le_trans x y w p t in cc | inr t ↦ t ],
    none_below x w ys h a,
  )

  -- Above a value that is not at most another, no value of a sorted list is.
  rank-count-le :
      (xs : List F) (i : ℕ) (x w : F)
      → IsSorted xs
      → get_elem? xs i ≡ some x
      → fl.le x w ≡ false
      → count (λ y. fl.le y w) xs ≤ i
  rank-count-le [] i x w s at h = cc
  rank-count-le (y ∷ ys) zero x w (first, s) at h =
      let same : y ≡ x = cc in
      let test : fl.le y w ≡ false = rw same h in
      let rest = (count-zero_iff (λ z. fl.le z w) ys).1 (none_below y w ys test first) in
      ground arith
  rank-count-le (y ∷ ys) (suc i) x w (first, s) at h =
      let rest = rank-count-le ys i x w s at h in ground arith

  rank-le :
      (xs ys sorted others : List F) (i : ℕ) (v w : F)
      → SameItems xs ys
      → IsArranged ieee sorted xs
      → IsArranged ieee others ys
      → get_elem? sorted i ≡ some v
      → get_elem? others i ≡ some w
      → fl.le w w ≡ true
      → fl.le v w ≡ true
  rank-le xs ys sorted others i v w h (s, held) (o, other_held) at other_at number =
      elim (Bool-cases (fl.le v w)) [
        | inl t ↦ t
        | inr t ↦
            let many = count-le-rank others i w o other_at number in
            let few = rank-count-le sorted i v w s at t in
            let same : count (λ y. fl.le y w) sorted ≡ count (λ y. fl.le y w) others =
              held (λ y. fl.le y w) ∙ h (λ y. fl.le y w) ∙ sym (other_held (λ y. fl.le y w)) in
            absurd (omega arith)
      ]

  -- The values at one rank of two arrangements of the same numbers are at most each other.
  pub ranks-alike :
      (i : ℕ) (xs ys sorted others : List F) (v w : F)
      → SameItems xs ys
      → NoNan xs
      → IsArranged ieee sorted xs
      → IsArranged ieee others ys
      → get_elem? sorted i ≡ some v
      → get_elem? others i ≡ some w
      → (fl.le v w ≡ true) × (fl.le w v ≡ true)
  ranks-alike i xs ys sorted others v w h numbers s o at other_at =
      let back = SameItems-sym xs ys h in
      let number_v : fl.le v v ≡ true =
        All-get_elem? _ sorted i v
          (All-true (λ x. fl.le x x) xs sorted (SameItems-sym sorted xs s.1) numbers) at in
      let number_w : fl.le w w ≡ true =
        All-get_elem? _ others i w
          (All-true (λ x. fl.le x x) ys others (SameItems-sym others ys o.1)
            (All-true (λ x. fl.le x x) xs ys h numbers))
          other_at in
      (
        rank-le xs ys sorted others i v w h s o at other_at number_w,
        rank-le ys xs others sorted i w v back o s other_at at number_v,
      )

  -- What is at most two values that are at most each other.
  pub bounded_iff :
      (low high v w : F)
      → fl.le v w ≡ true
      → fl.le w v ≡ true
      → ((fl.le low v ≡ true) × (fl.le v high ≡ true))
        ↔ ((fl.le low w ≡ true) × (fl.le w high ≡ true))
  bounded_iff low high v w up down = (
    (λ (a, b). (ieee.le_trans low v w a up, ieee.le_trans w v high down b)),
    λ (a, b). (ieee.le_trans low w v a down, ieee.le_trans v w high up b),
  )
