-- ===== src/Float.antt =====
-- The `f64` values of the source: a type with the constants, comparisons and operations that the
-- code uses. The code's comparisons are IEEE 754's, so a NaN is neither below nor above anything.
use ematix_probe.Prelude.{
  ℕ, suc, ℤ, ◌^◌, ◌≤◌, ◌<◌, ◌≡◌, Bool, true, not, ◌&&◌, ◌⊎◌, Option, pos, List,
}

pub record Float (F : Type 0) : Type 0 where
  -- the literal `m * 10^-k`
  pub decimal : ℕ → ℕ → F
  -- `v as f64` of an integer
  pub of_int : ℤ → F
  pub lt : F → F → Bool
  pub le : F → F → Bool
  pub mul : F → F → F
  pub sub : F → F → F
  pub div : F → F → F
  pub floor : F → F
  -- `as u64` and `as usize`, which saturate
  pub to_u64 : F → ℕ
  pub is_finite : F → Bool
  -- `Duration::as_secs_f64` of a duration in nanoseconds
  pub as_secs : ℕ → F
  -- `Duration::from_secs_f64` and `Duration::mul_f64`, where `none` is their panic
  pub from_secs : F → Option ℕ
  pub mul_duration : ℕ → F → Option ℕ
  -- `sort_by` of values with a NaN among them, by `partial_cmp(..).unwrap_or(Equal)`: this is no
  -- total order then, so that the sort may panic, which is `none`, or leave any order
  pub sort_with_nan : List F → Option (List F)

module _ {F : Type 0} ⦃fl : Float F⦄ where
  abbrev pub zero_f : F
  zero_f = fl.decimal 0 0

  abbrev pub one_f : F
  one_f = fl.decimal 1 0

  -- `n as f64` of an unsigned integer
  abbrev pub of_ℕ : ℕ → F
  of_ℕ n = fl.of_int (pos n)

  -- `(0.0..=1.0).contains(&x)`
  abbrev pub in_unit : F → Bool
  in_unit x = fl.le zero_f x && fl.le x one_f

  -- Nearest rank in `n` sorted values: `(p * (n as f64 - 1.0)).floor() as usize`
  unfoldable pub rank : F → ℕ → ℕ
  rank p n = fl.to_u64 (fl.floor (fl.mul p (fl.sub (of_ℕ n) one_f)))

-- The facts of IEEE 754 that the proofs use. A value is no NaN if it is `<=` itself.
pub record IsIeee (F : Type 0) ⦃fl : Float F⦄ : Type 0 where
  pub le_trans : (x y z : F) → fl.le x y ≡ true → fl.le y z ≡ true → fl.le x z ≡ true
  pub lt-eq-not-le : (x y : F) → fl.le x x ≡ true → fl.le y y ≡ true → fl.lt x y ≡ not (fl.le y x)
  pub le_total :
      (x y : F) → fl.le x x ≡ true → fl.le y y ≡ true → (fl.le x y ≡ true) ⊎ (fl.le y x ≡ true)
  -- A number below 2^53 is exact, and so is the number before it.
  pub sub_one : (n : ℕ) → n < 2 ^ 53 → fl.sub (of_ℕ (suc n)) one_f ≡ of_ℕ n
  -- A factor from 0 to 1 does not enlarge a number.
  pub mul-le :
      (p : F) (n : ℕ)
      → fl.le zero_f p ≡ true
      → fl.le p one_f ≡ true
      → fl.le (fl.mul p (of_ℕ n)) (of_ℕ n) ≡ true
  -- Rounding down and converting keeps a bound that is an exact number.
  pub to_u64-floor-le :
      (x : F) (n : ℕ) → n < 2 ^ 53 → fl.le x (of_ℕ n) ≡ true → fl.to_u64 (fl.floor x) ≤ n
