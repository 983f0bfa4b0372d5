-- ===== src/Common/Decimal/RoundTrip.antt =====
-- A printed number is read back, with or without leading zeros.
use native.Mathlib.Nat.{pow-suc}
use chainfx_payment_core.Common.{
  ℕ, zero, suc, ◌+◌, ◌-◌, ◌/◌, ◌%◌, ◌^◌, ◌≤◌, ◌<◌, ◌≡◌, refl, ◌≢◌, ◌∙◌, [], ◌∷◌, ◌++◌, some, arith,
  length, replicate, length-replicate, length-append,
}
use chainfx_payment_core.Common.Int.{pos, sub_ℕ}
use chainfx_payment_core.Common.Text.{Text, All-append}
use chainfx_payment_core.Common.Decimal.{
  digits, format_nat, pad_zeros, scan, parse_nat, parse_int, Digits,
}

scan-digits : (fuel n : ℕ) (out : Text) → n ≤ fuel → scan (digits fuel n out) 0 ≡ scan out n
unfolding digits scan
scan-digits zero n out h = ground arith
scan-digits (suc fuel) n out h = ground (arith, scan-digits fuel (n / 10) ((b'0' + n % 10) ∷ out))

digits-Digits : (fuel n : ℕ) (out : Text) → Digits out → Digits (digits fuel n out)
unfolding digits
digits-Digits zero n out h = h
digits-Digits (suc fuel) n out h =
    ground (arith, digits-Digits fuel (n / 10) ((b'0' + n % 10) ∷ out))

pub format_nat-Digits : (n : ℕ) → Digits (format_nat n)
unfolding format_nat
format_nat-Digits n = ground (arith, digits-Digits n n [])

digits-ne-nil : (fuel n : ℕ) (c : ℕ) (out : Text) → digits fuel n (c ∷ out) ≢ []
unfolding digits
digits-ne-nil zero n c out = cc
digits-ne-nil (suc fuel) n c out =
    ground (arith, digits-ne-nil fuel (n / 10) (b'0' + n % 10) (c ∷ out))

pub format_nat-ne-nil : (n : ℕ) → format_nat n ≢ []
unfolding format_nat digits
format_nat-ne-nil zero = ground arith
format_nat-ne-nil (suc n) = ground (arith, digits-ne-nil n (suc n / 10) (b'0' + suc n % 10) [])

parse_nat-scan : (s : Text) → s ≢ [] → parse_nat s ≡ scan s 0
unfolding parse_nat
parse_nat-scan [] h = absurd (h refl)
parse_nat-scan (c ∷ s) h = refl

scan-format_nat : (n : ℕ) → scan (format_nat n) 0 ≡ some n
unfolding format_nat scan
scan-format_nat n = ground (arith, scan-digits n n [])

pub parse_nat-format_nat : (n : ℕ) → parse_nat (format_nat n) ≡ some n
parse_nat-format_nat n = parse_nat-scan _ (format_nat-ne-nil n) ∙ scan-format_nat n

scan-zeros : (k : ℕ) (s : Text) → scan (replicate k b'0' ++ s) 0 ≡ scan s 0
unfolding scan
scan-zeros zero s = refl
scan-zeros (suc k) s = scan-zeros k s

pub pad_zeros-ne-nil : (k : ℕ) (s : Text) → s ≢ [] → pad_zeros k s ≢ []
unfolding pad_zeros
pad_zeros-ne-nil k s h = elim (k - length s) as (λ j. replicate j b'0' ++ s ≢ []) [
  | zero ↦ h
  | suc j ↦ cc
]

pub parse_nat-pad_zeros : (k n : ℕ) → parse_nat (pad_zeros k (format_nat n)) ≡ some n
unfolding pad_zeros
parse_nat-pad_zeros k n =
    parse_nat-scan _ (pad_zeros-ne-nil k _ (format_nat-ne-nil n))
    ∙ scan-zeros (k - length (format_nat n)) (format_nat n)
    ∙ scan-format_nat n

length-digits :
    (fuel n k : ℕ) (out : Text) → n < 10 ^ k → length (digits fuel n out) ≤ k + length out
unfolding digits
length-digits zero n k out h = omega arith
length-digits (suc fuel) n zero out h = ground arith
length-digits (suc fuel) n (suc k) out h =
    ground (arith, pow-suc 10 k, length-digits fuel (n / 10) k ((b'0' + n % 10) ∷ out))

-- A number below 10^k has at most k digits, if k is positive.
pub length-format_nat : (n k : ℕ) → n < 10 ^ suc k → length (format_nat n) ≤ suc k
unfolding format_nat
length-format_nat n k h = ground (arith, length-digits n n (suc k) [] h)

-- Padded to k places, it has exactly k.
pub length-pad_zeros :
    (n k : ℕ) → n < 10 ^ suc k → length (pad_zeros (suc k) (format_nat n)) ≡ suc k
unfolding pad_zeros
length-pad_zeros n k h = omega (
  arith,
  length-append (replicate (suc k - length (format_nat n)) b'0') (format_nat n),
  length-replicate {A = ℕ} (suc k - length (format_nat n)) b'0',
  length-format_nat n k h,
)

pub replicate-Digits : (k : ℕ) → Digits (replicate k b'0')
replicate-Digits zero = tt
replicate-Digits (suc k) = (refl, replicate-Digits k)

pub pad_zeros-Digits : (k n : ℕ) → Digits (pad_zeros k (format_nat n))
unfolding pad_zeros
pad_zeros-Digits k n = All-append _ _ _ (replicate-Digits _) (format_nat-Digits n)

-- Digits behind no sign are a number that is not negative.
pub parse_int-Digits :
    (s : Text) (n : ℕ) → Digits s → parse_nat s ≡ some n → n < 2 ^ 63 → parse_int s ≡ some (pos n)
unfolding parse_int
parse_int-Digits [] n d h lt = ground (arith, parse_nat)
parse_int-Digits (c ∷ s) n d h lt = ground arith

pub parse_int_neg :
    (s : Text) (n : ℕ) → parse_nat s ≡ some n → n ≤ 2 ^ 63 → parse_int (b'-' ∷ s) ≡ some (sub_ℕ 0 n)
unfolding parse_int
parse_int_neg s n h le = ground arith

pub parse_int-format_nat : (n : ℕ) → n < 2 ^ 63 → parse_int (format_nat n) ≡ some (pos n)
parse_int-format_nat n lt = parse_int-Digits _ n (format_nat-Digits n) (parse_nat-format_nat n) lt
