-- ===== src/Examples/Numbers.antt =====
-- A type of floats: thousandths from 0 on, and one NaN.
use ematix_probe.Prelude.{
  ℕ, zero, suc, ℤ, pos, negsuc, ◌-◌, ◌*◌, ◌/◌, ◌^◌, ◌≤◌, ◌≡◌, Bool, true, false, not, ◌⊎◌, Option,
  none, some, arith, ltb, leb, eqb, is_none, if◌then◌else◌,
}
use ematix_probe.Float.{Float, IsIeee, zero_f, one_f, of_ℕ}

abbrev pub Thousandths : Type 0
Thousandths = Option ℕ

abbrev both : (ℕ → ℕ → Bool) → Thousandths → Thousandths → Bool
both test (some a) (some b) = test a b
both test _ _ = false

abbrev apply : (ℕ → ℕ → Option ℕ) → Thousandths → Thousandths → Thousandths
apply op (some a) (some b) = op a b
apply op _ _ = none

abbrev from_int : ℤ → Thousandths
from_int (pos n) = some (n * 1000)
from_int (negsuc n) = none

abbrev round_down : Thousandths → Thousandths
round_down none = none
round_down (some a) = some (a / 1000 * 1000)

abbrev to_nat : Thousandths → ℕ
to_nat none = 0
to_nat (some a) = a / 1000

abbrev nanoseconds : Thousandths → Option ℕ
nanoseconds none = none
nanoseconds (some a) = some (a * 1000000)

instance abbrev pub thousandths : Float Thousandths
thousandths = record {
  decimal = λ m k. some (m * 1000 / 10 ^ k);
  of_int = from_int;
  lt = both ltb;
  le = both leb;
  mul = apply (λ a b. some (a * b / 1000));
  sub = apply (λ a b. if ltb a b then none else some (a - b));
  div = apply (λ a b. if eqb b 0 then none else some (a * 1000 / b));
  floor = round_down;
  to_u64 = to_nat;
  is_finite = λ a. not (is_none a);
  as_secs = λ n. some (n / 1000000);
  from_secs = nanoseconds;
  mul_duration = λ d a. apply (λ x y. some (x * y / 1000)) (some d) a;
  sort_with_nan = λ xs. none;
}

mul_mono : (p n : ℕ) → p ≤ 1000 → p * n ≤ 1000 * n
mul_mono p zero h = omega arith
mul_mono p (suc n) h = omega (arith, mul_mono p n h)

scale : (p n : ℕ) → p * (n * 1000) ≡ p * n * 1000
scale p zero = omega arith
scale p (suc n) = omega (arith, scale p n)

mul-le_lem :
    (p : Thousandths) (n : ℕ)
    → both leb zero_f p ≡ true
    → both leb p one_f ≡ true
    → both leb (apply (λ a b. some (a * b / 1000)) p (of_ℕ n)) (of_ℕ n) ≡ true
mul-le_lem none n h k = absurd (ground arith)
mul-le_lem (some p) n h k = ground (arith, mul_mono p n, scale p n)

sub_one_lem :
    (n : ℕ) → apply (λ a b. if ltb a b then none else some (a - b)) (of_ℕ (suc n)) one_f ≡ of_ℕ n
sub_one_lem n = ground arith

le_trans_lem :
    (x y z : Thousandths) → both leb x y ≡ true → both leb y z ≡ true → both leb x z ≡ true
le_trans_lem none y z h k = absurd (ground arith)
le_trans_lem (some x) none z h k = absurd (ground arith)
le_trans_lem (some x) (some y) none h k = absurd (ground arith)
le_trans_lem (some x) (some y) (some z) h k = ground arith

lt-le_lem :
    (x y : Thousandths)
    → both leb x x ≡ true
    → both leb y y ≡ true
    → (both ltb x y ≡ not (both leb y x)) × ((both leb x y ≡ true) ⊎ (both leb y x ≡ true))
lt-le_lem none y h k = absurd (ground arith)
lt-le_lem (some x) none h k = absurd (ground arith)
lt-le_lem (some x) (some y) h k = ground arith

floor-le_lem : (x : Thousandths) (n : ℕ) → both leb x (of_ℕ n) ≡ true → to_nat (round_down x) ≤ n
floor-le_lem none n h = absurd (ground arith)
floor-le_lem (some x) n h = ground arith

pub thousandths-IsIeee : IsIeee Thousandths
thousandths-IsIeee = record {
  le_trans = le_trans_lem;
  lt-eq-not-le = λ x y h k. (lt-le_lem x y h k).0;
  le_total = λ x y h k. (lt-le_lem x y h k).1;
  sub_one = λ n h. sub_one_lem n;
  mul-le = mul-le_lem;
  to_u64-floor-le = λ x n h k. floor-le_lem x n k;
}
