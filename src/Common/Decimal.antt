-- ===== src/Common/Decimal.antt =====
-- Decimal numbers: the verbs %d and %0nd of package fmt, and strconv.ParseInt(s, 10, 64).
pub mod RoundTrip
pub mod Scan
use chainfx_payment_core.Common.{
  ℕ, zero, suc, ◌+◌, ◌-◌, ◌*◌, ◌/◌, ◌%◌, ◌^◌, ◌≤◌, ◌<◌, ◌≡◌, refl, ◌≢◌, ◌∙◌, Bool, true, false,
  List, [], ◌∷◌, ◌++◌, Option, none, some, arith, ltb, leb, ◌==◌, ◌&&◌, if◌then◌else◌, length,
  replicate,
}
use chainfx_payment_core.Common.Int.{ℤ, pos, negsuc, sub_ℕ}
use chainfx_payment_core.Common.Text.{Text, All, is_space}

-- The digits of `n` before `out`; a fuel of `n` is enough, since each round divides by ten.
digits : ℕ → ℕ → Text → Text
digits zero n out = out
digits (suc fuel) n out =
    let rest = digits fuel (n / 10) ((b'0' + n % 10) ∷ out) in if n == 0 then out else rest

unfoldable pub format_nat : ℕ → Text
unfolding digits
format_nat n = if n == 0 then b'0' ∷ [] else digits n n []

-- %d
unfoldable pub format_int : ℤ → Text
unfolding format_nat
format_int (pos n) = format_nat n
format_int (negsuc n) = b'-' ∷ format_nat (suc n)

unfoldable pub pad_zeros : ℕ → Text → Text
pad_zeros width s = replicate (width - length s) b'0' ++ s

-- %0nd: the sign counts in the width, and the zeros stand behind it.
unfoldable pub format_padded : ℕ → ℤ → Text
unfolding format_nat pad_zeros
format_padded width (pos n) = pad_zeros width (format_nat n)
format_padded width (negsuc n) = b'-' ∷ pad_zeros (width - 1) (format_nat (suc n))

abbrev pub is_digit : ℕ → Bool
is_digit c = leb b'0' c && leb c b'9'

-- The number that digits spell behind `acc`.
unfoldable pub scan : Text → ℕ → Option ℕ
scan [] acc = some acc
scan (c ∷ s) acc = if is_digit c then scan s (acc * 10 + (c - b'0')) else none

unfoldable pub parse_nat : Text → Option ℕ
unfolding scan
parse_nat [] = none
parse_nat (c ∷ s) = scan (c ∷ s) 0

abbrev signed : Bool → ℕ → Option ℤ
signed false n = if ltb n (2 ^ 63) then some (pos n) else none
signed true n = if leb n (2 ^ 63) then some (sub_ℕ 0 n) else none

abbrev with_sign : Bool → Option ℕ → Option ℤ
with_sign negative none = none
with_sign negative (some n) = signed negative n

-- A sign or none, one digit or more, and a value in the range of int64.
unfoldable pub parse_int : Text → Option ℤ
unfolding parse_nat
parse_int [] = none
parse_int (c ∷ s) =
    if c == b'-'
    then with_sign true (parse_nat s)
    else if c == b'+'
    then with_sign false (parse_nat s)
    else with_sign false (parse_nat (c ∷ s))

abbrev pub Digits : Text → Type 0
Digits = All (λ c. is_digit c ≡ true)
