-- ===== src/Money/RoundTrip.antt =====
-- `TokenUnits.String` followed by `ParseToken`.
use chainfx_payment_core.Common.{
  ℕ, suc, ◌+◌, ◌*◌, ◌/◌, ◌%◌, ◌^◌, ◌≤◌, ◌<◌, ◌≡◌, refl, ◌∙◌, ap, ◌∷◌, ◌++◌, some, arith, ltb,
  if◌then◌else◌, ◌&&◌, inl, inr, Bool-cases,
}
use chainfx_payment_core.Common.Int.{ℤ, pos, negsuc, sub_ℕ, pos_part, neg_part}
use chainfx_payment_core.Common.Int64.{sub64, mul64, neg64, add64-pos, mul64-pos, div64-pos}
use chainfx_payment_core.Common.Text.{Text}
use chainfx_payment_core.Common.Decimal.{format_nat, pad_zeros}
use chainfx_payment_core.Common.Decimal.RoundTrip.{
  format_nat-Digits, parse_nat-format_nat, parse_int_neg, parse_int-format_nat,
}
use chainfx_payment_core.Money.{join_parts, token_string, parse_token, token_scale}
use chainfx_payment_core.Money.Print.{parse_fixed-parts, Digits-NoSpace, Digits-NoDot}

-- The text of a number, whole part and fraction.
printed : ℕ → Text
printed n = format_nat (n / 1_000_000) ++ b'.' ∷ pad_zeros 6 (format_nat (n % 1_000_000))

token_string-pos : (n : ℕ) → n < 2 ^ 63 → token_string (pos n) ≡ printed n
unfolding token_string printed
token_string-pos n h = ground (arith, div64-pos n 999_999 h)

neg64-negsuc : (n : ℕ) → suc n < 2 ^ 63 → neg64 (negsuc n) ≡ pos (suc n)
unfolding neg64
neg64-negsuc n h = ground arith

token_string-negsuc : (n : ℕ) → suc n < 2 ^ 63 → token_string (negsuc n) ≡ b'-' ∷ printed (suc n)
unfolding token_string printed
token_string-negsuc n h = ground (arith, neg64-negsuc n h, div64-pos (suc n) 999_999 h)

join_parts-pos :
    (n : ℕ)
    → n < 2 ^ 63
    → join_parts (pos (n / 1_000_000)) (pos (n % 1_000_000)) token_scale ≡ pos n
unfolding join_parts
join_parts-pos n h = ground (
  arith,
  mul64-pos (n / 1_000_000) 1_000_000 (omega arith),
  add64-pos (n / 1_000_000 * 1_000_000) (n % 1_000_000) (omega arith),
)

mul64-neg : (q m : ℕ) → q * m < 2 ^ 63 → mul64 (sub_ℕ 0 q) (pos m) ≡ sub_ℕ 0 (q * m)
unfolding mul64
mul64-neg q m h = ground arith

sub64-neg : (a b : ℕ) → a + b < 2 ^ 63 → sub64 (sub_ℕ 0 a) (pos b) ≡ sub_ℕ 0 (a + b)
unfolding sub64
sub64-neg a b h = ground arith

join_parts-neg :
    (n : ℕ)
    → n < 2 ^ 63
    → 1_000_000 ≤ n
    → join_parts (sub_ℕ 0 (n / 1_000_000)) (pos (n % 1_000_000)) token_scale ≡ sub_ℕ 0 n
unfolding join_parts
join_parts-neg n h le = ground (
  arith,
  mul64-neg (n / 1_000_000) 1_000_000 (omega arith),
  sub64-neg (n / 1_000_000 * 1_000_000) (n % 1_000_000) (omega arith),
)

-- What the text of `t` is read back as: between minus one and zero the sign is lost.
abbrev pub read_back : ℤ → ℤ
read_back t = if ltb 0 (neg_part t) && ltb (neg_part t) 1_000_000 then pos (neg_part t) else t

read_pos : (n : ℕ) → n < 2 ^ 63 → parse_token (printed n) ≡ some (pos n)
unfolding parse_token printed
read_pos n h =
    let q = format_nat (n / 1_000_000) in
    let digits = format_nat-Digits (n / 1_000_000) in
    parse_fixed-parts q (pos (n / 1_000_000)) token_scale 5 (n % 1_000_000)
      (Digits-NoSpace q digits) (Digits-NoDot q digits)
      (parse_int-format_nat (n / 1_000_000) (omega arith)) (omega arith) (omega arith)
    ∙ ap some (join_parts-pos n h)

read_neg :
    (n : ℕ)
    → n < 2 ^ 63
    → parse_token (b'-' ∷ printed n)
      ≡ some (join_parts (sub_ℕ 0 (n / 1_000_000)) (pos (n % 1_000_000)) token_scale)
unfolding parse_token printed
read_neg n h =
    let q = format_nat (n / 1_000_000) in
    let digits = format_nat-Digits (n / 1_000_000) in
    parse_fixed-parts (b'-' ∷ q) (sub_ℕ 0 (n / 1_000_000)) token_scale 5 (n % 1_000_000)
      (refl, Digits-NoSpace q digits) (refl, Digits-NoDot q digits)
      (parse_int_neg q (n / 1_000_000) (parse_nat-format_nat (n / 1_000_000)) (omega arith))
      (omega arith) (omega arith)

join_parts-small :
    (n : ℕ)
    → n < 1_000_000
    → join_parts (sub_ℕ 0 (n / 1_000_000)) (pos (n % 1_000_000)) token_scale ≡ pos n
join_parts-small n h =
    let none_whole : sub_ℕ 0 (n / 1_000_000) ≡ pos (n / 1_000_000) = ground arith in
    ap (λ w. join_parts w (pos (n % 1_000_000)) token_scale) none_whole
    ∙ join_parts-pos n (omega arith)

-- Every token amount but the least int64 is read back from its text as it was, except that an
-- amount strictly between minus one token and zero loses its sign.
pub parse_token-token_string :
    (t : ℤ)
    → pos_part t < 2 ^ 63
    → neg_part t < 2 ^ 63
    → parse_token (token_string t) ≡ some (read_back t)
parse_token-token_string (pos n) h k = rw (token_string-pos n h) (read_pos n h)
parse_token-token_string (negsuc n) h k = rw (token_string-negsuc n k) (
    read_neg (suc n) k
    ∙ ap some (elim (Bool-cases (ltb (suc n) 1_000_000)) [
      | inl small ↦ ground (arith, join_parts-small (suc n))
      | inr large ↦ ground (arith, join_parts-neg (suc n) k)
    ]))
