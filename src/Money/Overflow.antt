-- ===== src/Money/Overflow.antt =====
-- What the conversions return where a product leaves int64.
use chainfx_payment_core.Common.{ℕ, suc, ◌+◌, ◌-◌, ◌*◌, ◌/◌, ◌^◌, ◌≤◌, ◌<◌, ◌≡◌, arith}
use chainfx_payment_core.Common.Int.{pos, negsuc, sub_ℕ, ◌≤ℤ◌}
use chainfx_payment_core.Common.Int64.{mul64, mul64-pos, div64, sub64, div64-pos}
use chainfx_payment_core.Money.{round_div, fiat_from_tokens}

mul64_wraps :
    (m n : ℕ)
    → 2 ^ 63 ≤ m * n
    → m * n < 2 ^ 64
    → mul64 (pos m) (pos n) ≡ negsuc (2 ^ 64 - m * n - 1)
unfolding mul64
mul64_wraps m n lo hi = ground arith

sub64-negsuc : (k n : ℕ) → k + n < 2 ^ 63 → sub64 (negsuc k) (pos n) ≡ negsuc (k + n)
unfolding sub64
sub64-negsuc k n h = ground arith

div64-negsuc : (k n : ℕ) → k < 2 ^ 63 → div64 (negsuc k) (pos (suc n)) ≡ sub_ℕ 0 (suc k / suc n)
unfolding div64
div64-negsuc k n h = ground arith

round_div_neg :
    (k : ℕ) → k + 500_000_000_000 < 2 ^ 63 → round_div (negsuc k) (pos 1_000_000_000_000) ≤ℤ pos 0
unfolding round_div
round_div_neg k h = ground (
  arith,
  div64-pos 1_000_000_000_000 1 (omega arith),
  sub64-negsuc k 500_000_000_000 h,
  div64-negsuc (k + 500_000_000_000) 999_999_999_999 h,
)

-- A token amount and a rate whose product fits in int64, but of which a hundred times the product
-- lies between 2^63 plus half a unit and 2^64, are converted to a fiat amount that is not positive.
pub fiat_from_tokens_overflow :
    (t r : ℕ)
    → 0 < t
    → 0 < r
    → t * r < 2 ^ 63
    → 2 ^ 63 + 500_000_000_000 ≤ t * r * 100
    → t * r * 100 < 2 ^ 64
    → fiat_from_tokens (pos t) (pos r) ≤ℤ pos 0
unfolding fiat_from_tokens
fiat_from_tokens_overflow t r p q fits lo hi = ground (
  arith,
  mul64-pos t r fits,
  mul64_wraps (t * r) 100 (omega arith) hi,
  mul64-pos 1_000_000 1_000_000 (omega arith),
  round_div_neg (2 ^ 64 - t * r * 100 - 1) (omega arith),
)
