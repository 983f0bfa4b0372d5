-- ===== src/Paymaster/Amounts.antt =====
-- internal/paymaster/token_relayer.go, and the amounts of internal/paymaster/batcher.go: the spread
-- on a relay, and texts as whole numbers of a token's smallest unit. The float64 values, which are
-- for display, are left out.
pub mod Split
pub mod Texts
mod Tests
use chainfx_payment_core.Common.{
  ℕ, zero, suc, ◌+◌, ◌-◌, ◌*◌, ◌/◌, ◌%◌, ◌^◌, Bool, true, false, not, ◌&&◌, ◌||◌, List, [], ◌∷◌,
  ◌++◌, Option, none, some, if◌then◌else◌, ltb, leb, ◌==◌, length, take, replicate,
}
use chainfx_payment_core.Common.Int.{ℤ, pos, negsuc, pos_part, sub_ℕ, ◌+ℤ◌, ◌*ℤ◌, ltb_ℤ}
use chainfx_payment_core.Common.Text.{
  Text, codes, is_empty, trim_space, to_upper, text_eq, cut, contains,
}
use chainfx_payment_core.Common.Decimal.{parse_nat, format_nat, format_int, pad_zeros}

abbrev pub default_spread_bps : ℕ
default_spread_bps = 100

abbrev pub basis_point_divisor : ℕ
basis_point_divisor = 10_000

abbrev pub usdt_decimals : ℕ
usdt_decimals = 6

abbrev signed : Bool → Option ℕ → Option ℤ
signed negative none = none
signed false (some n) = some (pos n)
signed true (some n) = some (sub_ℕ 0 n)

-- (*big.Int).SetString(s, 10)
unfoldable pub set_string : Text → Option ℤ
unfolding parse_nat
set_string [] = none
set_string (c ∷ s) =
    if c == b'-'
    then signed true (parse_nat s)
    else if c == b'+'
    then signed false (parse_nat s)
    else signed false (parse_nat (c ∷ s))

-- A fraction cut or filled up to so many places.
unfoldable pub fit : ℕ → Text → Text
fit places s =
    if ltb places (length s) then take places s else s ++ replicate (places - length s) b'0'

abbrev pub or_empty : Option Text → Text
or_empty none = []
or_empty (some s) = s

unfoldable pub parse_usdt_to_micro : Text → Option ℤ
unfolding trim_space cut fit set_string
parse_usdt_to_micro amount =
    let (int_part, frac_part) = cut b'.' (trim_space amount) in
    if is_empty (trim_space amount)
    then none
    else set_string (int_part ++ fit usdt_decimals (or_empty frac_part))

pub record TokenRelayer : Type 0 where
  pub spread_bps : ℕ
  pub hot_wallet : Text

-- The only place where a relayer is made, so its spread is positive.
pub new_token_relayer : ℤ → Text → TokenRelayer
new_token_relayer spread_bps hot_wallet = record {
  spread_bps = if ltb_ℤ (pos 0) spread_bps then pos_part spread_bps else default_spread_bps;
  hot_wallet = hot_wallet;
}

pub record RelayPlan : Type 0 where
  pub total_micro : ℕ
  pub net_micro : ℤ
  pub fee_micro : ℕ

-- A plan is made of a positive amount only.
abbrev plan_of : TokenRelayer → ℤ → Option RelayPlan
plan_of tr (negsuc n) = none
plan_of tr (pos total) =
    let fee = total * tr.spread_bps / basis_point_divisor in
    if total == 0
    then none
    else some (record { total_micro = total; net_micro = sub_ℕ total fee; fee_micro = fee })

unfoldable pub plan : TokenRelayer → Text → Option RelayPlan
unfolding parse_usdt_to_micro
plan tr amount = elim (parse_usdt_to_micro amount) [ none ↦ none | some micro ↦ plan_of tr micro ]

unfoldable pub has_fee_destination : TokenRelayer → Bool
unfolding trim_space
has_fee_destination tr = not (is_empty (trim_space tr.hot_wallet))

-- (*big.Int).DivMod by a positive number: the remainder is not negative.
abbrev div_mod : ℤ → ℕ → ℤ × ℕ
div_mod (pos n) d = (pos (n / d), n % d)
div_mod (negsuc n) d = (negsuc (n / d), d - 1 - n % d)

unfoldable pub micro_usdt_to_string : ℤ → Text
unfolding format_int format_nat pad_zeros
micro_usdt_to_string micro =
    let (int_part, frac_part) = div_mod micro 1_000_000 in
    format_int int_part ++ b'.' ∷ pad_zeros 6 (format_nat frac_part)

unfoldable pub token_decimals_for_network : Text → ℕ
unfolding to_upper trim_space text_eq
token_decimals_for_network network =
    if text_eq (to_upper (trim_space network)) (codes "POLYGON") then 6 else 18

-- What follows the whole part, when there is a dot.
abbrev with_fraction : ℤ → Option Text → ℕ → Option ℤ
with_fraction whole none decimals = some whole
with_fraction whole (some fraction) decimals =
    let digits = fit decimals fraction in
    if contains fraction (b'.' ∷ [])
    then none
    else if is_empty digits
    then some whole
    else elim (set_string digits) [ none ↦ none | some frac ↦ some (whole +ℤ frac) ]

unfoldable pub decimal_to_token_units : Text → ℕ → Option ℤ
unfolding trim_space cut contains fit set_string ◌+ℤ◌ ◌*ℤ◌
decimal_to_token_units value decimals =
    let (whole, fraction) = cut b'.' (trim_space value) in
    if is_empty (trim_space value) || ltb 30 decimals || is_empty whole
    then none
    else elim (set_string whole) [
      | none ↦ none
      | some n ↦ with_fraction (n *ℤ pos (10 ^ decimals)) fraction decimals
    ]

unfoldable pub trim_zeros : Text → Text
trim_zeros [] = []
trim_zeros (c ∷ s) = let rest = trim_zeros s in if c == b'0' && is_empty rest then [] else c ∷ rest

unfoldable pub token_units_to_decimal : ℤ → ℕ → Text
unfolding format_int format_nat pad_zeros trim_zeros
token_units_to_decimal units decimals =
    let (int_part, frac_part) = div_mod units (10 ^ decimals) in
    let frac = trim_zeros (pad_zeros decimals (format_nat frac_part)) in
    if decimals == 0 || is_empty frac
    then format_int int_part
    else format_int int_part ++ b'.' ∷ frac
