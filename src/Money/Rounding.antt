-- ===== src/Money/Rounding.antt =====
-- Fees and conversions are rounded to the nearest unit, as long as no product leaves int64.
use chainfx_payment_core.Common.{
  ℕ, suc, ◌+◌, ◌-◌, ◌*◌, ◌/◌, ◌^◌, ◌≤◌, ◌<◌, ◌≡◌, arith, ◌∙◌, ap, refl, sym,
}
use chainfx_payment_core.Common.Int.{pos, pos_part}
use chainfx_payment_core.Common.Int64.{sub64, add64-pos, sub64-pos, mul64-pos, div64-pos}
use chainfx_payment_core.Money.{
  round_div, fee_bps, token_fee_bps, gross_for_net_token, fiat_from_tokens, bps_scale, add_bps,
  subtract_bps,
}

pub round_div-pos :
    (num d : ℕ)
    → num + suc d / 2 < 2 ^ 63
    → suc d < 2 ^ 63
    → round_div (pos num) (pos (suc d)) ≡ pos ((num + suc d / 2) / suc d)
unfolding round_div
round_div-pos num d h k =
    ground
      (arith, div64-pos (suc d) 1 k, add64-pos num (suc d / 2) h, div64-pos (num + suc d / 2) d h)

pub fee_bps-pos :
    (a b : ℕ) → a * b + 5000 < 2 ^ 63 → fee_bps (pos a) (pos b) ≡ pos ((a * b + 5000) / 10000)
unfolding fee_bps
fee_bps-pos a b h =
    ground (arith, mul64-pos a b (omega arith), round_div-pos (a * b) 9999 h (omega arith))

-- The fee on an amount that is not negative is `amount * bps / 10000` to the nearest unit, a half
-- upwards, where the product and the half fit in int64; up to 10000 basis points it is no more than
-- the amount.
fee_bps-nearest :
    (a b : ℕ)
    → a * b + 5000 < 2 ^ 63
    → b ≤ 10000
    → let fee = pos_part (fee_bps (pos a) (pos b)) in
      (fee_bps (pos a) (pos b) ≡ pos fee)
      × (10000 * fee ≤ a * b + 5000)
      × (a * b + 5000 < 10000 * fee + 10000)
      × (fee ≤ a)
fee_bps-nearest a b h k = rw (fee_bps-pos a b h) (
  refl,
  omega arith,
  omega arith,
  (let below : a * b ≤ a * 10000 = grind arith in omega (arith, below)),
)

token_fee_bps-pos :
    (a b : ℕ) → a * b + 5000 < 2 ^ 63 → token_fee_bps (pos a) (pos b) ≡ pos ((a * b + 5000) / 10000)
unfolding token_fee_bps
token_fee_bps-pos a b h =
    ground (arith, mul64-pos a b (omega arith), round_div-pos (a * b) 9999 h (omega arith))

gross_for_net_token-pos :
    (n b d : ℕ)
    → 0 < n
    → 0 < b
    → suc d + b ≡ 10000
    → n * 10000 + 5000 < 2 ^ 63
    → gross_for_net_token (pos n) (pos b) ≡ pos ((n * 10000 + suc d / 2) / suc d)
unfolding gross_for_net_token
gross_for_net_token-pos n b d p q e h =
    let rest : sub64 bps_scale (pos b) ≡ pos (suc d) =
      sub64-pos 10000 b (omega arith) (omega arith) ∙ ap pos (omega arith) in
    ground (
      arith,
      rest,
      mul64-pos n 10000 (omega arith),
      round_div-pos (n * 10000) d (omega arith) (omega arith),
    )

product_split : (g d b s : ℕ) → d + b ≡ s → g * d + g * b ≡ g * s
product_split g d b s e = rw (← e) (omega arith)

-- Both roundings together are off by less than one unit, since `d / 2 + 5000 < 10000`.
net_exact :
    (n d b g f : ℕ)
    → suc d + b ≡ 10000
    → 0 < b
    → g ≡ (n * 10000 + suc d / 2) / suc d
    → f ≡ (g * b + 5000) / 10000
    → g ≡ n + f
net_exact n d b g f s p eg ef =
    let split : g * suc d + g * b ≡ g * 10000 = product_split g (suc d) b 10000 s in
    let low : suc d * g ≤ n * 10000 + suc d / 2 = rw eg (omega arith) in
    let high : n * 10000 + suc d / 2 < suc d * g + suc d = rw eg (omega arith) in
    omega (arith, split, low, high)

-- From the gross amount that is computed for a net amount, the fee leaves exactly that net amount,
-- at every rate between 1 and 9999 basis points, where the products fit in int64.
pub gross_for_net_token-fee :
    (net bps : ℕ)
    → 0 < net
    → 0 < bps
    → bps < 10000
    → net * 10000 + 5000 < 2 ^ 63
    → pos_part (gross_for_net_token (pos net) (pos bps)) * bps + 5000 < 2 ^ 63
    → let gross = pos_part (gross_for_net_token (pos net) (pos bps)) in
      (gross_for_net_token (pos net) (pos bps) ≡ pos gross)
      × (gross ≡ net + pos_part (token_fee_bps (pos gross) (pos bps)))
gross_for_net_token-fee net bps p q lt h k =
    let d : ℕ = 9999 - bps in
    let e : suc d + bps ≡ 10000 = omega arith in
    let g : gross_for_net_token (pos net) (pos bps) ≡ pos ((net * 10000 + suc d / 2) / suc d) =
      gross_for_net_token-pos net bps d p q e h in
    let gross = pos_part (gross_for_net_token (pos net) (pos bps)) in
    (
      g ∙ sym (ap (λ z. pos (pos_part z)) g),
      net_exact net d bps gross _ e q (ap pos_part g) (ap pos_part (token_fee_bps-pos gross bps k)),
    )

fiat_from_tokens-pos :
    (t r : ℕ)
    → 0 < t
    → 0 < r
    → t * r * 100 + 500_000_000_000 < 2 ^ 63
    → fiat_from_tokens (pos t) (pos r) ≡ pos ((t * r * 100 + 500_000_000_000) / 1_000_000_000_000)
unfolding fiat_from_tokens
fiat_from_tokens-pos t r p q h = ground (
  arith,
  mul64-pos t r (omega arith),
  mul64-pos (t * r) 100 (omega arith),
  mul64-pos 1_000_000 1_000_000 (omega arith),
  round_div-pos (t * r * 100) 999_999_999_999 h (omega arith),
)

-- A positive token amount at a positive rate, of which the scaled product fits in int64, is worth
-- its exact value to the nearest minor unit, a half upwards.
pub fiat_from_tokens-nearest :
    (t r : ℕ)
    → 0 < t
    → 0 < r
    → t * r * 100 + 500_000_000_000 < 2 ^ 63
    → let fiat = pos_part (fiat_from_tokens (pos t) (pos r)) in
      (fiat_from_tokens (pos t) (pos r) ≡ pos fiat)
      × (1_000_000_000_000 * fiat ≤ t * r * 100 + 500_000_000_000)
      × (t * r * 100 + 500_000_000_000 < 1_000_000_000_000 * fiat + 1_000_000_000_000)
fiat_from_tokens-nearest t r p q h =
    rw (fiat_from_tokens-pos t r p q h) (refl, omega arith, omega arith)

add_bps-pos :
    (r b : ℕ)
    → 0 < b
    → r * (10000 + b) + 5000 < 2 ^ 63
    → b < 2 ^ 62
    → add_bps (pos r) (pos b) ≡ pos ((r * (10000 + b) + 5000) / 10000)
unfolding add_bps
add_bps-pos r b p h k = ground (
  arith,
  add64-pos 10000 b (omega arith),
  mul64-pos r (10000 + b) (omega arith),
  round_div-pos (r * (10000 + b)) 9999 h (omega arith),
)

subtract_bps-pos :
    (r b : ℕ)
    → 0 < b
    → b < 10000
    → r * (10000 - b) + 5000 < 2 ^ 63
    → subtract_bps (pos r) (pos b) ≡ pos ((r * (10000 - b) + 5000) / 10000)
unfolding subtract_bps
subtract_bps-pos r b p lt h = ground (
  arith,
  sub64-pos 10000 b (omega arith) (omega arith),
  mul64-pos r (10000 - b) (omega arith),
  round_div-pos (r * (10000 - b)) 9999 h (omega arith),
)

-- The spread is symmetric around the rate, to a unit: where the raised rate fits in int64, the rate
-- lies between the lowered and the raised one, and those two are off by as much on both sides.
spread_around_rate :
    (r b : ℕ)
    → 0 < b
    → b < 10000
    → r * (10000 + b) + 5000 < 2 ^ 63
    → let low = pos_part (subtract_bps (pos r) (pos b)) in
      let high = pos_part (add_bps (pos r) (pos b)) in
      (low ≤ r) × (r ≤ high) × (low + high ≤ 2 * r + 1) × (2 * r ≤ low + high)
spread_around_rate r b p lt h =
    let d : ℕ = 10000 - b in
    let e : d + b ≡ 10000 = omega arith in
    let split : r * d + r * b ≡ r * 10000 = product_split r d b 10000 e in
    rw (add_bps-pos r b p h (omega arith), subtract_bps-pos r b p lt (omega (arith, split)))
      (omega (arith, split), omega arith, omega (arith, split), omega (arith, split))
