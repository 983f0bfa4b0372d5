-- ===== src/Paymaster/Amounts/Texts.antt =====
-- The texts of internal/paymaster/batcher.go and what they are read as.
use native.Mathlib.Nat.{mul_assoc, add-mul, pow-suc}
use chainfx_payment_core.Common.{
  ℕ, suc, ◌+◌, ◌-◌, ◌*◌, ◌/◌, ◌%◌, ◌^◌, ◌≤◌, ◌<◌, ◌≡◌, ◌≢◌, refl, ◌∙◌, ap, sym, false, [], ◌∷◌,
  ◌++◌, some, arith, ltb, length, replicate, append-nil,
}
use chainfx_payment_core.Common.Int.{pos, ◌+ℤ◌, ◌*ℤ◌}
use chainfx_payment_core.Common.Text.{
  Text, NoSpace, All-append, trim_space-NoSpace, cut, cut-append, contains, has_prefix, is_empty,
}
use chainfx_payment_core.Common.Decimal.{Digits, scan, parse_nat, format_nat, format_int, pad_zeros}
use chainfx_payment_core.Common.Decimal.RoundTrip.{
  format_nat-ne-nil, pad_zeros-ne-nil, replicate-Digits, format_nat-Digits, pad_zeros-Digits,
  length-pad_zeros,
}
use chainfx_payment_core.Common.Decimal.Scan.{scan-append, scan_number, scan-pad_zeros, scan_zeros}
use chainfx_payment_core.Money.Print.{Digits-NoSpace, Digits-NoDot, is_empty-append}
use chainfx_payment_core.Paymaster.Amounts.{
  set_string, fit, parse_usdt_to_micro, micro_usdt_to_string, decimal_to_token_units, with_fraction,
}

-- Digits are read as what they spell.
set_string-Digits :
    (s : Text) (n : ℕ) → Digits s → s ≢ [] → scan s 0 ≡ some n → set_string s ≡ some (pos n)
unfolding set_string parse_nat
set_string-Digits [] n d h e = absurd (h refl)
set_string-Digits (c ∷ s) n d h e = ground (arith, e, d.0)

not_longer : (k n : ℕ) → n ≤ k → ltb k n ≡ false
not_longer k n h = ground arith

none_left : (k n : ℕ) → n ≡ k → k - n ≡ 0
none_left k n h = omega arith

fit_same : (k : ℕ) (s : Text) → length s ≡ k → fit k s ≡ s
unfolding fit
fit_same k s h =
    rw (not_longer k (length s) (omega (arith, h)), none_left k (length s) (omega (arith, h)))
      (append-nil s)

fit_more : (k : ℕ) (s : Text) → length s ≤ k → fit k s ≡ s ++ replicate (k - length s) b'0'
unfolding fit
fit_more k s h = rw (not_longer k (length s) h) refl

contains-NoDot : (s : Text) → Digits s → contains s (b'.' ∷ []) ≡ false
unfolding contains has_prefix
contains-NoDot [] d = refl
contains-NoDot (c ∷ s) d = ground (arith, d.0, contains-NoDot s d.1)

-- How a positive amount is printed: the whole part, and six places.
pub printed : ℕ → ℕ → Text
printed q r = format_nat q ++ b'.' ∷ pad_zeros 6 (format_nat r)

printed-NoSpace : (q r : ℕ) → NoSpace (printed q r)
unfolding printed
printed-NoSpace q r =
    All-append _ (format_nat q) (b'.' ∷ pad_zeros 6 (format_nat r))
      (Digits-NoSpace (format_nat q) (format_nat-Digits q))
      (refl, Digits-NoSpace (pad_zeros 6 (format_nat r)) (pad_zeros-Digits 6 r))

append-ne-nil : (s t : Text) → s ≢ [] → s ++ t ≢ []
append-ne-nil [] t h = absurd (h refl)
append-ne-nil (c ∷ s) t h = cc

whole-fraction :
    (q r : ℕ)
    → r < 10 ^ 6
    → set_string (format_nat q ++ pad_zeros 6 (format_nat r)) ≡ some (pos (q * 1_000_000 + r))
whole-fraction q r h =
    set_string-Digits (format_nat q ++ pad_zeros 6 (format_nat r)) (q * 1_000_000 + r)
      (All-append _ (format_nat q) (pad_zeros 6 (format_nat r)) (format_nat-Digits q)
        (pad_zeros-Digits 6 r))
      (append-ne-nil (format_nat q) (pad_zeros 6 (format_nat r)) (format_nat-ne-nil q))
      (scan-append (format_nat q) (pad_zeros 6 (format_nat r)) 0 q (scan_number q)
        ∙ scan-pad_zeros q r 5 h)

whole : (q : ℕ) → set_string (format_nat q) ≡ some (pos q)
whole q =
    set_string-Digits (format_nat q) q (format_nat-Digits q) (format_nat-ne-nil q) (scan_number q)

fraction_filled :
    (r k : ℕ)
    → r < 10 ^ 6
    → set_string (pad_zeros 6 (format_nat r) ++ replicate k b'0') ≡ some (pos (r * 10 ^ k))
fraction_filled r k h =
    let f = pad_zeros 6 (format_nat r) in
    set_string-Digits (f ++ replicate k b'0') (r * 10 ^ k)
      (All-append _ f (replicate k b'0') (pad_zeros-Digits 6 r) (replicate-Digits k))
      (append-ne-nil f (replicate k b'0') (pad_zeros-ne-nil 6 (format_nat r) (format_nat-ne-nil r)))
      (scan-append f (replicate k b'0') 0 r (scan-pad_zeros 0 r 5 h ∙ ap some (omega arith))
        ∙ scan_zeros k r)

pub printed-ne-nil : (q r : ℕ) → is_empty (printed q r) ≡ false
unfolding printed
printed-ne-nil q r = is_empty-append (format_nat q) b'.' (pad_zeros 6 (format_nat r))

printed-cut : (q r : ℕ) → cut b'.' (printed q r) ≡ (format_nat q, some (pad_zeros 6 (format_nat r)))
unfolding printed
printed-cut q r =
    cut-append b'.' (format_nat q) (pad_zeros 6 (format_nat r))
      (Digits-NoDot (format_nat q) (format_nat-Digits q))

printed_micro :
    (q r : ℕ) → r < 10 ^ 6 → parse_usdt_to_micro (printed q r) ≡ some (pos (q * 1_000_000 + r))
unfolding parse_usdt_to_micro
printed_micro q r h = ground (
  arith,
  trim_space-NoSpace (printed q r) (printed-NoSpace q r),
  printed-cut q r,
  printed-ne-nil q r,
  fit_same 6 (pad_zeros 6 (format_nat r)) (length-pad_zeros r 5 h),
  whole-fraction q r h,
)

ne-nil-is_empty : (s : Text) → s ≢ [] → is_empty s ≡ false
ne-nil-is_empty [] h = absurd (h refl)
ne-nil-is_empty (c ∷ s) h = refl

pos-product : (a b : ℕ) → pos a *ℤ pos b ≡ pos (a * b)
unfolding ◌*ℤ◌
pos-product a b = ground arith

pos-sum : (a b : ℕ) → pos a +ℤ pos b ≡ pos (a + b)
unfolding ◌+ℤ◌
pos-sum a b = ground arith

fraction_units :
    (n r k : ℕ)
    → r < 10 ^ 6
    → with_fraction (pos n) (some (pad_zeros 6 (format_nat r))) (6 + k)
      ≡ some (pos (n + r * 10 ^ k))
fraction_units n r k h =
    let f = pad_zeros 6 (format_nat r) in
    let length-f : length f ≡ 6 = length-pad_zeros r 5 h in
    let filled : fit (6 + k) f ≡ f ++ replicate k b'0' =
      fit_more (6 + k) f (omega (arith, length-f))
      ∙ ap (λ (j : ℕ). f ++ replicate j b'0') (omega (arith, length-f)) in
    ground (
      arith,
      contains-NoDot f (pad_zeros-Digits 6 r),
      filled,
      ne-nil-is_empty (f ++ replicate k b'0') (
          append-ne-nil f (replicate k b'0')
            (pad_zeros-ne-nil 6 (format_nat r) (format_nat-ne-nil r))),
      fraction_filled r k h,
      pos-sum n (r * 10 ^ k),
    )

printed_units :
    (q r k : ℕ)
    → r < 10 ^ 6
    → k ≤ 24
    → decimal_to_token_units (printed q r) (6 + k) ≡ some (pos (q * 10 ^ (6 + k) + r * 10 ^ k))
unfolding decimal_to_token_units
printed_units q r k h l = ground (
  arith,
  trim_space-NoSpace (printed q r) (printed-NoSpace q r),
  printed-cut q r,
  printed-ne-nil q r,
  ne-nil-is_empty (format_nat q) (format_nat-ne-nil q),
  whole q,
  pos-product q (10 ^ (6 + k)),
  fraction_units (q * 10 ^ (6 + k)) r k h,
)

pub micro-printed : (n : ℕ) → micro_usdt_to_string (pos n) ≡ printed (n / 1_000_000) (n % 1_000_000)
unfolding micro_usdt_to_string printed format_int
micro-printed n = refl

six_more : (k : ℕ) → 10 ^ (6 + k) ≡ 1_000_000 * 10 ^ k
six_more ℕ.zero = refl
six_more (suc k) =
    ap (λ (m : ℕ). 10 ^ m) {y = suc (6 + k)} (omega arith)
    ∙ omega (arith, six_more k, pow-suc 10 (6 + k), pow-suc 10 k)

units_sum : (n k : ℕ) → n / 1_000_000 * 10 ^ (6 + k) + n % 1_000_000 * 10 ^ k ≡ n * 10 ^ k
units_sum n k =
    let p = 10 ^ k in
    rw
      (
        six_more k,
        sym (mul_assoc (n / 1_000_000) 1_000_000 p),
        sym (add-mul (n / 1_000_000 * 1_000_000) (n % 1_000_000) p),
      )
      (ap (λ (m : ℕ). m * p) (omega arith))

-- An amount of micro-USDT that is printed is read back.
pub parse_usdt_to_micro-micro_usdt_to_string :
    (n : ℕ) → parse_usdt_to_micro (micro_usdt_to_string (pos n)) ≡ some (pos n)
parse_usdt_to_micro-micro_usdt_to_string n =
    ap parse_usdt_to_micro (micro-printed n)
    ∙ printed_micro (n / 1_000_000) (n % 1_000_000) (omega arith)
    ∙ ap (λ (m : ℕ). some (pos m)) (omega arith)

-- An amount of micro-USDT that is not negative is printed as a text that is read, for a token of six to
-- thirty decimals, as the same amount in the token's units.
pub decimal_to_token_units-micro_usdt_to_string :
    (n k : ℕ)
    → k ≤ 24
    → decimal_to_token_units (micro_usdt_to_string (pos n)) (6 + k) ≡ some (pos (n * 10 ^ k))
decimal_to_token_units-micro_usdt_to_string n k h =
    ap (λ s. decimal_to_token_units s (6 + k)) (micro-printed n)
    ∙ printed_units (n / 1_000_000) (n % 1_000_000) k (omega arith) h
    ∙ ap (λ (m : ℕ). some (pos m)) (units_sum n k)
