-- ===== src/Paymaster/Amounts/Split.antt =====
-- The two legs of a relay in internal/paymaster/token_relayer.go.
use mathlib.Core.Path.{subst}
use native.Mathlib.Nat.{mul-le-mul_left}
use chainfx_payment_core.Common.{
  ℕ, suc, ◌-◌, ◌*◌, ◌/◌, ◌≤◌, ◌<◌, ◌≡◌, ◌≢◌, refl, ◌∙◌, ap, sym, none, some, arith, ◌==◌,
  Bool-cases, Option-cases, inl, inr,
}
use chainfx_payment_core.Common.Int.{ℤ, pos, negsuc, sub_ℕ, ◌+ℤ◌}
use chainfx_payment_core.Common.Text.{Text}
use chainfx_payment_core.Paymaster.Amounts.{
  TokenRelayer, RelayPlan, plan, plan_of, parse_usdt_to_micro, basis_point_divisor,
}

-- What the total is, and what the fee takes of it.
abbrev pub Splits : TokenRelayer → RelayPlan → Type 0
Splits tr p =
    (p.net_micro +ℤ pos p.fee_micro ≡ pos p.total_micro)
    × (p.fee_micro * 10_000 ≤ p.total_micro * tr.spread_bps)
    × (p.total_micro * tr.spread_bps < suc p.fee_micro * 10_000)

abbrev pub made : TokenRelayer → ℕ → RelayPlan
made tr total =
    let fee = total * tr.spread_bps / basis_point_divisor in
    record { total_micro = total; net_micro = sub_ℕ total fee; fee_micro = fee }

made-Splits : (tr : TokenRelayer) (total : ℕ) → Splits tr (made tr total)
unfolding ◌+ℤ◌
made-Splits tr total = (ground arith, omega arith, omega arith)

plan_of-made :
    (tr : TokenRelayer) (micro : ℤ) (p : RelayPlan)
    → plan_of tr micro ≡ some p
    → (p ≡ made tr p.total_micro) × (micro ≡ pos p.total_micro) × (1 ≤ p.total_micro)
plan_of-made tr (negsuc n) p h = absurd (ground (arith, h))
plan_of-made tr (pos total) p h = elim (Bool-cases (total == 0)) [
  | inl e ↦ absurd (ground (arith, h, e))
  | inr e ↦
      let q : made tr total ≡ p = ground (arith, h, e) in
      (
        sym q ∙ ap (λ (r : RelayPlan). made tr r.total_micro) q,
        ap (λ (r : RelayPlan). pos r.total_micro) q,
        subst (λ (r : RelayPlan). 1 ≤ r.total_micro) q (ground (arith, e)),
      )
]

planned :
    (tr : TokenRelayer) (amount : Text) (micro : ℤ)
    → parse_usdt_to_micro amount ≡ some micro
    → plan tr amount ≡ plan_of tr micro
unfolding plan
planned tr amount micro e = rw (plan, e) refl

not_planned :
    (tr : TokenRelayer) (amount : Text) (p : RelayPlan)
    → parse_usdt_to_micro amount ≡ none
    → plan tr amount ≢ some p
unfolding plan
not_planned tr amount p e = rw (plan, e) (λ h. ground (arith, h))

-- A plan is that of the positive amount that the text is read as.
pub plan-made :
    (tr : TokenRelayer) (amount : Text) (p : RelayPlan)
    → plan tr amount ≡ some p
    → (p ≡ made tr p.total_micro)
      × (parse_usdt_to_micro amount ≡ some (pos p.total_micro))
      × (1 ≤ p.total_micro)
plan-made tr amount p h = elim (Option-cases (parse_usdt_to_micro amount)) [
  | inl e ↦ absurd (not_planned tr amount p e h)
  | inr (micro, e) ↦
      let (q, m, l) = plan_of-made tr micro p (sym (planned tr amount micro e) ∙ h) in
      (q, e ∙ ap some m, l)
]

pub plan-net-fee :
    (tr : TokenRelayer) (amount : Text) (p : RelayPlan) → plan tr amount ≡ some p → Splits tr p
plan-net-fee tr amount p h =
    let (q, e, l) = plan-made tr amount p h in
    subst (Splits tr) (sym q) (made-Splits tr p.total_micro)

abbrev pub NetPositive : RelayPlan → Type 0
NetPositive p = (n : ℕ) × (p.net_micro ≡ pos (suc n))

made-NetPositive :
    (tr : TokenRelayer) (total : ℕ)
    → 1 ≤ total
    → tr.spread_bps < 10_000
    → NetPositive (made tr total)
made-NetPositive tr total h b =
    let fee = total * tr.spread_bps / basis_point_divisor in
    let less : fee < total =
      omega (arith, h, mul-le-mul_left {m = tr.spread_bps} {n = 9_999} total (omega (arith, b))) in
    (total - fee - 1, ground (arith, less))

-- With a spread below 10,000 basis points, a plan is made only for an amount that is read as a
-- positive number of micro-USDT; its legs add up to this amount, the fee is the spread's share of it,
-- rounded down, and the net leg is positive.
pub plan-Splits :
    (tr : TokenRelayer) (amount : Text) (p : RelayPlan)
    → tr.spread_bps < 10_000
    → plan tr amount ≡ some p
    → (parse_usdt_to_micro amount ≡ some (pos p.total_micro))
      × (1 ≤ p.total_micro)
      × Splits tr p
      × NetPositive p
plan-Splits tr amount p b h =
    let (q, e, l) = plan-made tr amount p h in
    (
      e,
      l,
      plan-net-fee tr amount p h,
      subst NetPositive (sym q) (made-NetPositive tr p.total_micro l b),
    )
