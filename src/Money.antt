-- ===== src/Money.antt =====
-- internal/money/money.go: amounts as int64 counts of minor units, rates with six decimals, fees in
-- basis points, and their text. The conversions from and to float64 are left out.
pub mod Rounding
pub mod Overflow
pub mod Print
pub mod RoundTrip
mod Tests
use chainfx_payment_core.Common.{
  ℕ, ◌+◌, ◌-◌, ◌≡◌, Bool, true, false, [], ◌∷◌, ◌++◌, Option, none, some, ltb, leb, ◌||◌, length,
  take, replicate, not, ◌&&◌, if◌then◌else◌,
}
use chainfx_payment_core.Common.Int.{ℤ, pos, ltb_ℤ}
use chainfx_payment_core.Common.Int64.{add64, sub64, mul64, neg64, div64, rem64, is_positive}
use chainfx_payment_core.Common.Text.{Text, is_empty, trim_space, trim_left, cut, text_eq, codes}
use chainfx_payment_core.Common.Decimal.{format_int, format_padded, parse_int}

abbrev pub fiat_scale : ℤ
fiat_scale = pos 100

abbrev pub token_scale : ℤ
token_scale = pos 1_000_000

abbrev pub rate_scale : ℤ
rate_scale = pos 1_000_000

abbrev pub bps_scale : ℤ
bps_scale = pos 10_000

abbrev pub is_zero : ℤ → Bool
is_zero (pos n) = leb n 0
is_zero _ = false

pub round_div : ℤ → ℤ → ℤ
unfolding add64 sub64 div64
round_div num den =
    if is_zero den
    then pos 0
    else if ltb_ℤ num (pos 0)
    then div64 (sub64 num (div64 den (pos 2))) den
    else div64 (add64 num (div64 den (pos 2))) den

pub fee_bps : ℤ → ℤ → ℤ
unfolding round_div mul64
fee_bps amount bps =
    if not (is_positive amount) || not (is_positive bps)
    then pos 0
    else round_div (mul64 amount bps) bps_scale

pub add_bps : ℤ → ℤ → ℤ
unfolding round_div mul64 add64
add_bps rate bps =
    if not (is_positive rate) || not (is_positive bps)
    then rate
    else round_div (mul64 rate (add64 bps_scale bps)) bps_scale

pub subtract_bps : ℤ → ℤ → ℤ
unfolding round_div mul64 sub64
subtract_bps rate bps =
    if not (is_positive rate) || not (is_positive bps)
    then rate
    else if not (ltb_ℤ bps bps_scale)
    then pos 0
    else round_div (mul64 rate (sub64 bps_scale bps)) bps_scale

pub fiat_from_tokens : ℤ → ℤ → ℤ
unfolding round_div mul64
fiat_from_tokens tokens rate =
    if not (is_positive tokens) || not (is_positive rate)
    then pos 0
    else round_div (mul64 (mul64 tokens rate) fiat_scale) (mul64 token_scale rate_scale)

pub tokens_from_fiat : ℤ → ℤ → ℤ
unfolding round_div mul64
tokens_from_fiat amount rate =
    if not (is_positive amount) || not (is_positive rate)
    then pos 0
    else round_div (mul64 (mul64 amount token_scale) rate_scale) (mul64 fiat_scale rate)

-- The body is that of `FeeBps`, on token units.
pub token_fee_bps : ℤ → ℤ → ℤ
unfolding round_div mul64
token_fee_bps amount bps =
    if not (is_positive amount) || not (is_positive bps)
    then pos 0
    else round_div (mul64 amount bps) bps_scale

pub gross_for_net_token : ℤ → ℤ → ℤ
unfolding round_div mul64 sub64
gross_for_net_token net bps =
    if not (is_positive net)
    then pos 0
    else if not (is_positive bps)
    then net
    else if not (ltb_ℤ bps bps_scale)
    then pos 0
    else round_div (mul64 net bps_scale) (sub64 bps_scale bps)

pub abs64 : ℤ → ℤ
unfolding neg64
abs64 value = if ltb_ℤ value (pos 0) then neg64 value else value

-- "%s%d.%0nd"
pub fixed_string : ℤ → ℤ → ℕ → Text
unfolding neg64 div64 rem64 format_int format_padded
fixed_string value scale decimals =
    let negative = ltb_ℤ value (pos 0) in
    let size = if negative then neg64 value else value in
    (if negative then b'-' ∷ [] else [])
    ++ (format_int (div64 size scale) ++ (b'.' ∷ format_padded decimals (rem64 size scale)))

-- (m MoneyMinor) String, "%d.%02d"
pub money_string : ℤ → Text
unfolding div64 rem64 format_int format_padded abs64
money_string m =
    format_int (div64 m fiat_scale) ++ (b'.' ∷ format_padded 2 (abs64 (rem64 m fiat_scale)))

-- (t TokenUnits) String
pub token_string : ℤ → Text
unfolding fixed_string
token_string t = fixed_string t token_scale 6

-- strings.Trim(frac, "0") == ""
pub all_zeros : Text → Bool
all_zeros [] = true
all_zeros (c ∷ s) = leb c b'0' && leb b'0' c && all_zeros s

abbrev or_empty : Option Text → Text
or_empty none = []
or_empty (some s) = s

-- The fraction, cut or filled up to the number of decimals.
pub fit_fraction : ℕ → Option Text → Text
fit_fraction decimals after =
    let frac = take decimals (or_empty after) in frac ++ replicate (decimals - length frac) b'0'

-- The sign is that of the parsed whole part: "-0" counts as not negative.
pub join_parts : ℤ → ℤ → ℤ → ℤ
unfolding mul64 add64 sub64
join_parts whole frac scale =
    if ltb_ℤ whole (pos 0) then sub64 (mul64 whole scale) frac else add64 (mul64 whole scale) frac

-- `none` is an error.
pub parse_fixed : Text → ℕ → ℤ → Option ℤ
unfolding trim_space cut parse_int all_zeros fit_fraction join_parts
parse_fixed value decimals scale =
    let s = trim_space value in
    let (before, after) = cut b'.' s in
    let frac = fit_fraction decimals after in
    if is_empty s then none else elim (parse_int before) [
      | none ↦ none
      | some whole ↦ elim (if all_zeros frac then some (pos 0) else parse_int frac) [
        | none ↦ none
        | some units ↦ some (join_parts whole units scale)
      ]
    ]

pub parse_money : Text → Option ℤ
unfolding parse_fixed
parse_money value = parse_fixed value 2 fiat_scale

pub parse_token : Text → Option ℤ
unfolding parse_fixed
parse_token value = parse_fixed value 6 token_scale
