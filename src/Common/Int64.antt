-- ===== src/Common/Int64.antt =====
-- Go's int64: a value is the integer that the word stands for, and each operation wraps around.
-- Division truncates towards zero.
use chainfx_payment_core.Common.{
  ℕ, suc, Bool, ◌+◌, ◌-◌, ◌*◌, ◌/◌, ◌%◌, ◌^◌, ◌≤◌, ◌<◌, ◌≡◌, arith, ltb, if◌then◌else◌,
}
use chainfx_payment_core.Common.Int.{
  ℤ, pos, negsuc, pos_part, neg_part, sub_ℕ, ◌+ℤ◌, ◌-ℤ◌, ◌*ℤ◌, ltb_ℤ,
}

-- The integer that a bit pattern stands for in two's complement.
abbrev pub from_bits : ℕ → ℤ
from_bits w = if ltb w (2 ^ 63) then pos w else negsuc (2 ^ 64 - w - 1)

unfoldable pub wrap64 : ℤ → ℤ
wrap64 (pos n) = from_bits (n % 2 ^ 64)
wrap64 (negsuc n) = from_bits (2 ^ 64 - 1 - n % 2 ^ 64)

abbrev pub IsInt64 : ℤ → Type 0
IsInt64 a = (pos_part a < 2 ^ 63) × (neg_part a ≤ 2 ^ 63)

pub wrap64_exact : (a : ℤ) → IsInt64 a → wrap64 a ≡ a
unfolding wrap64
wrap64_exact (pos n) h = ground arith
wrap64_exact (negsuc n) h = ground arith

pub wrap64-IsInt64 : (a : ℤ) → IsInt64 (wrap64 a)
unfolding wrap64
wrap64-IsInt64 (pos n) = ground arith
wrap64-IsInt64 (negsuc n) = ground arith

unfoldable pub add64 : ℤ → ℤ → ℤ
unfolding wrap64 ◌+ℤ◌
add64 a b = wrap64 (a +ℤ b)

unfoldable pub sub64 : ℤ → ℤ → ℤ
unfolding wrap64 ◌-ℤ◌
sub64 a b = wrap64 (a -ℤ b)

unfoldable pub mul64 : ℤ → ℤ → ℤ
unfolding wrap64 ◌*ℤ◌
mul64 a b = wrap64 (a *ℤ b)

unfoldable pub neg64 : ℤ → ℤ
unfolding sub64
neg64 a = sub64 (pos 0) a

-- a / b and a % b for b other than zero; the one quotient that overflows wraps.
unfoldable pub div64 : ℤ → ℤ → ℤ
unfolding wrap64
div64 (pos m) (pos n) = wrap64 (pos (m / n))
div64 (pos m) (negsuc n) = wrap64 (sub_ℕ 0 (m / suc n))
div64 (negsuc m) (pos n) = wrap64 (sub_ℕ 0 (suc m / n))
div64 (negsuc m) (negsuc n) = wrap64 (pos (suc m / suc n))

unfoldable pub rem64 : ℤ → ℤ → ℤ
rem64 (pos m) (pos n) = pos (m % n)
rem64 (pos m) (negsuc n) = pos (m % suc n)
rem64 (negsuc m) (pos n) = sub_ℕ 0 (suc m % n)
rem64 (negsuc m) (negsuc n) = sub_ℕ 0 (suc m % suc n)

abbrev pub is_positive : ℤ → Bool
is_positive a = ltb_ℤ (pos 0) a

-- On numbers that are not negative and results below 2^63 the operations are those of ℕ.
pub add64-pos : (m n : ℕ) → m + n < 2 ^ 63 → add64 (pos m) (pos n) ≡ pos (m + n)
unfolding add64
add64-pos m n h = ground arith

pub mul64-pos : (m n : ℕ) → m * n < 2 ^ 63 → mul64 (pos m) (pos n) ≡ pos (m * n)
unfolding mul64
mul64-pos m n h = ground arith

pub div64-pos : (m n : ℕ) → m < 2 ^ 63 → div64 (pos m) (pos (suc n)) ≡ pos (m / suc n)
unfolding div64
div64-pos m n h = ground arith

pub sub64-pos : (m n : ℕ) → n ≤ m → m < 2 ^ 63 → sub64 (pos m) (pos n) ≡ pos (m - n)
unfolding sub64
sub64-pos m n h k = ground arith
