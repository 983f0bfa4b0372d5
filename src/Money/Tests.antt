-- ===== src/Money/Tests.antt =====
-- Amounts on concrete values.
use chainfx_payment_core.Common.{◌+◌, ◌*◌, ◌≤◌, ◌<◌, ◌≡◌, refl, some, none, arith}
use chainfx_payment_core.Common.Int.{pos, negsuc, pos_part}
use chainfx_payment_core.Common.Text.{codes}
use chainfx_payment_core.Money.{
  token_fee_bps, gross_for_net_token, fiat_from_tokens, tokens_from_fiat, money_string,
  token_string, parse_token, parse_money,
}
use chainfx_payment_core.Money.Rounding.{gross_for_net_token-fee, fiat_from_tokens-nearest}
use chainfx_payment_core.Money.RoundTrip.{read_back, parse_token-token_string}

print_negative : token_string (negsuc 1_499_999) ≡ codes "-1.500000"
unfolding token_string
print_negative = refl

-- Between minus one and zero `MoneyMinor.String` prints no sign.
money_string_sign : money_string (negsuc 49) ≡ codes "0.50"
unfolding money_string
money_string_sign = refl

-- A sign inside the fraction is accepted.
sign_in_fraction : parse_money (codes "1.-5") ≡ some (pos 95)
unfolding parse_money
sign_in_fraction = refl

parse_truncates : parse_money (codes " 12.349 ") ≡ some (pos 1234)
unfolding parse_money
parse_truncates = refl

no_whole : parse_money (codes ".5") ≡ none
unfolding parse_money
no_whole = refl

-- R$ 100,000.00 at 5.5 reais for a token: the product wraps around.
tokens_from_fiat_wraps : tokens_from_fiat (pos 10_000_000) (pos 5_500_000) ≡ negsuc 15357716497
unfolding tokens_from_fiat
tokens_from_fiat_wraps = refl

gross_for_net_token-fee_example :
    let gross = pos_part (gross_for_net_token (pos 1_000_000) (pos 150)) in
    (gross_for_net_token (pos 1_000_000) (pos 150) ≡ pos gross)
    × (gross ≡ 1_000_000 + pos_part (token_fee_bps (pos gross) (pos 150)))
unfolding gross_for_net_token
gross_for_net_token-fee_example =
    gross_for_net_token-fee 1_000_000 150 (omega arith) (omega arith) (omega arith) (omega arith)
      (omega arith)

fiat_from_tokens-nearest_example :
    let fiat = pos_part (fiat_from_tokens (pos 2_500_001) (pos 5_432_100)) in
    (fiat_from_tokens (pos 2_500_001) (pos 5_432_100) ≡ pos fiat)
    × (1_000_000_000_000 * fiat ≤ 2_500_001 * 5_432_100 * 100 + 500_000_000_000)
    × (2_500_001 * 5_432_100 * 100 + 500_000_000_000 < 1_000_000_000_000 * fiat + 1_000_000_000_000)
fiat_from_tokens-nearest_example =
    fiat_from_tokens-nearest 2_500_001 5_432_100 (omega arith) (omega arith) (omega arith)

parse_token-token_string_example :
    parse_token (token_string (negsuc 499_999)) ≡ some (read_back (negsuc 499_999))
parse_token-token_string_example =
    parse_token-token_string (negsuc 499_999) (omega arith) (omega arith)
