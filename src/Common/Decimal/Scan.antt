-- ===== src/Common/Decimal/Scan.antt =====
-- What digits spell behind other digits.
use native.Mathlib.Nat.{pow-suc, mul_assoc, mul_comm}
use chainfx_payment_core.Common.{
  ℕ, zero, suc, ◌+◌, ◌-◌, ◌*◌, ◌^◌, ◌<◌, ◌≡◌, refl, ◌∙◌, ap, true, [], ◌∷◌, ◌++◌, some, arith,
  length, replicate,
}
use chainfx_payment_core.Common.Text.{Text}
use chainfx_payment_core.Common.Decimal.{scan, parse_nat, is_digit, format_nat, pad_zeros}
use chainfx_payment_core.Common.Decimal.RoundTrip.{
  parse_nat-pad_zeros, length-pad_zeros, parse_nat-format_nat,
}

scan_step :
    (c : ℕ) (s : Text) (a v : ℕ)
    → scan (c ∷ s) a ≡ some v
    → (is_digit c ≡ true) × (scan s (a * 10 + (c - b'0')) ≡ some v)
unfolding scan
scan_step c s a v h = ground (arith, h)

pub scan-append : (s t : Text) (a v : ℕ) → scan s a ≡ some v → scan (s ++ t) a ≡ scan t v
unfolding scan
scan-append [] t a v h = ap (scan t) (ground (arith, h))
scan-append (c ∷ s) t a v h =
    let (e, k) = scan_step c s a v h in rw (scan, e) (scan-append s t (a * 10 + (c - b'0')) v k)

-- A number in front adds its value, moved by as many places as there are digits.
pub scan-shift :
    (s : Text) (a b v : ℕ) → scan s a ≡ some v → scan s (a + b) ≡ some (v + b * 10 ^ length s)
unfolding scan
scan-shift [] a b v h = ground (arith, h)
scan-shift (c ∷ s) a b v h =
    let (e, k) = scan_step c s a v h in
    rw (scan, e)
      (ap (scan s) (omega arith)
        ∙ scan-shift s (a * 10 + (c - b'0')) (b * 10) v k
        ∙ ap some (
            omega (
              arith,
              mul_assoc b 10 (10 ^ length s),
              mul_comm 10 (10 ^ length s),
              ap (λ (p : ℕ). b * p) (pow-suc 10 (length s)),
            )))

pub scan_behind : (s : Text) (b v : ℕ) → scan s 0 ≡ some v → scan s b ≡ some (b * 10 ^ length s + v)
scan_behind s b v h = ap (scan s) (omega arith) ∙ scan-shift s 0 b v h ∙ ap some (omega arith)

scan-parse_nat : (s : Text) (v : ℕ) → parse_nat s ≡ some v → scan s 0 ≡ some v
unfolding parse_nat
scan-parse_nat [] v h = absurd (ground (arith, h))
scan-parse_nat (c ∷ s) v h = h

pub scan_zeros : (k b : ℕ) → scan (replicate k b'0') b ≡ some (b * 10 ^ k)
unfolding scan
scan_zeros zero b = ap some (omega arith)
scan_zeros (suc k) b =
    ap (scan (replicate k b'0')) (omega arith)
    ∙ scan_zeros k (b * 10)
    ∙ ap some (
        omega (
          arith,
          mul_assoc b 10 (10 ^ k),
          mul_comm 10 (10 ^ k),
          ap (λ (p : ℕ). b * p) (pow-suc 10 k),
        ))

-- Digits padded to k places behind a number.
pub scan-pad_zeros :
    (b n k : ℕ)
    → n < 10 ^ suc k
    → scan (pad_zeros (suc k) (format_nat n)) b ≡ some (b * 10 ^ suc k + n)
scan-pad_zeros b n k h =
    scan_behind (pad_zeros (suc k) (format_nat n)) b n
      (scan-parse_nat _ n (parse_nat-pad_zeros (suc k) n))
    ∙ rw (length-pad_zeros n k h) refl

pub scan_number : (n : ℕ) → scan (format_nat n) 0 ≡ some n
scan_number n = scan-parse_nat (format_nat n) n (parse_nat-format_nat n)
