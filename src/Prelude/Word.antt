-- ===== src/Prelude/Word.antt =====
-- Machine words of the source: `u64` counters and `i64` values wrap modulo 2^64, as in a release
-- build.
use Prim.Native.Nat.{ℕ, ◌+◌, ◌-◌, ◌%◌, ◌<◌}
use mathlib.Core.Path.{◌≡◌}
use native.Mathlib.Omega.{arith}
use ematix_probe.Prelude.Tests.{ltb, if◌then◌else◌}
use ematix_probe.Prelude.Int.{ℤ, pos, negsuc, ◌+ℤ◌, ◌-ℤ◌}

abbrev pub u64_mod : ℕ
u64_mod = 18446744073709551616

abbrev pub i64_limit : ℕ
i64_limit = 9223372036854775808

-- `a += b` on `u64`
abbrev pub add_u64 : ℕ → ℕ → ℕ
add_u64 a b = (a + b) % u64_mod

-- The bit pattern of an integer, and the `i64` that a bit pattern stands for.
abbrev pub bits : ℤ → ℕ
bits (pos n) = n % u64_mod
bits (negsuc n) = u64_mod - 1 - n % u64_mod

abbrev pub of_bits : ℕ → ℤ
of_bits b = if ltb b i64_limit then pos b else negsuc (u64_mod - 1 - b)

-- `n as i64` of a `usize`, and the results of `i64` addition and subtraction
abbrev pub as_i64 : ℕ → ℤ
as_i64 n = of_bits (n % u64_mod)

unfoldable pub add_i64 : ℤ → ℤ → ℤ
add_i64 a b = of_bits (bits (a +ℤ b))

unfoldable pub sub_i64 : ℤ → ℤ → ℤ
sub_i64 a b = of_bits (bits (a -ℤ b))

pub as_i64_of_lt : (n : ℕ) → n < i64_limit → as_i64 n ≡ pos n
as_i64_of_lt n h = ground arith

pub add_i64_of_lt : (a b : ℕ) → a + b < i64_limit → add_i64 (pos a) (as_i64 b) ≡ pos (a + b)
unfolding add_i64 ◌+ℤ◌
add_i64_of_lt a b h = ground arith

-- The integer fits an `i64`.
abbrev pub IsI64 : ℤ → Type 0
IsI64 (pos n) = n < i64_limit
IsI64 (negsuc n) = n < i64_limit

of_bits-bits : (z : ℤ) → IsI64 z → of_bits (bits z) ≡ z
of_bits-bits (pos n) h = ground arith
of_bits-bits (negsuc n) h = ground arith

pub sub_i64_of_IsI64 : (a b : ℤ) → IsI64 (a -ℤ b) → sub_i64 a b ≡ a -ℤ b
unfolding sub_i64
sub_i64_of_IsI64 a b h = of_bits-bits (a -ℤ b) h
