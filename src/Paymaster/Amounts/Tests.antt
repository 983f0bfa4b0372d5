-- ===== src/Paymaster/Amounts/Tests.antt =====
-- Runs of the amounts of internal/paymaster.
use chainfx_payment_core.Common.{◌+◌, ◌*◌, ◌^◌, ◌≤◌, ◌≡◌, refl, [], some, arith}
use chainfx_payment_core.Common.Int.{pos, negsuc}
use chainfx_payment_core.Common.Text.{codes}
use chainfx_payment_core.Paymaster.Amounts.{
  TokenRelayer, RelayPlan, new_token_relayer, plan, parse_usdt_to_micro, micro_usdt_to_string,
  decimal_to_token_units, token_units_to_decimal,
}
use chainfx_payment_core.Paymaster.Amounts.Split.{Splits, NetPositive, plan-Splits}
use chainfx_payment_core.Paymaster.Amounts.Texts.{decimal_to_token_units-micro_usdt_to_string}

abbrev relayer : TokenRelayer
relayer = record { spread_bps = 100; hot_wallet = [] }

relayer_lem : new_token_relayer (pos 0) [] ≡ relayer
unfolding new_token_relayer
relayer_lem = refl

abbrev hundred : RelayPlan
hundred = record { total_micro = 99_990_001; net_micro = pos 98_990_101; fee_micro = 999_900 }

hundred_lem : plan relayer (codes " 99.9900019 ") ≡ some hundred
unfolding plan
hundred_lem = refl

-- The part behind the sixth place is dropped, and a spread of more than the whole makes the net leg
-- negative, and a wrong text of it.
negative_lem :
    plan (record { spread_bps = 10_001; hot_wallet = [] }) (codes "1")
    ≡ some (record { total_micro = 1_000_000; net_micro = negsuc 99; fee_micro = 1_000_100 })
unfolding plan
negative_lem = refl

negative_text_lem : micro_usdt_to_string (negsuc 99) ≡ codes "-1.999900"
unfolding micro_usdt_to_string
negative_text_lem = refl

audit_lem : token_units_to_decimal (pos 99_990_000) 6 ≡ codes "99.99"
unfolding token_units_to_decimal
audit_lem = refl

plan-Splits_example :
    (parse_usdt_to_micro (codes " 99.9900019 ") ≡ some (pos 99_990_001))
    × (1 ≤ 99_990_001)
    × Splits relayer hundred
    × NetPositive hundred
plan-Splits_example = plan-Splits relayer (codes " 99.9900019 ") hundred (omega arith) hundred_lem

decimal_to_token_units-micro_usdt_to_string_example :
    decimal_to_token_units (micro_usdt_to_string (pos 98_990_101)) (6 + 12)
    ≡ some (pos (98_990_101 * 10 ^ 12))
decimal_to_token_units-micro_usdt_to_string_example =
    decimal_to_token_units-micro_usdt_to_string 98_990_101 12 (omega arith)
