-- ===== src/Paymaster/Multicall/Conserves.antt =====
-- What the calls for a job of internal/paymaster/batcher.go transfer.
use mathlib.Core.Path.{subst}
use native.Mathlib.Nat.{add-mul, zero-mul, mul-le-mul_right}
use chainfx_payment_core.Common.{
  ℕ, suc, ◌+◌, ◌-◌, ◌*◌, ◌/◌, ◌%◌, ◌^◌, ◌≤◌, ◌<◌, ◌≡◌, ◌≢◌, refl, ◌∙◌, ap, sym, Bool, true, false,
  not, ◌||◌, List, [], ◌∷◌, Option, none, some, arith, if◌then◌else◌, ltb, Bool-cases, Option-cases,
  inl, inr,
}
use chainfx_payment_core.Common.Int.{ℤ, pos, ltb_ℤ, ◌+ℤ◌}
use chainfx_payment_core.Common.Text.{Text, codes, is_empty, text_eq, trim_space}
use chainfx_payment_core.Paymaster.Relay.{RelayJob}
use chainfx_payment_core.Paymaster.Amounts.{
  TokenRelayer, RelayPlan, plan, has_fee_destination, micro_usdt_to_string, decimal_to_token_units,
}
use chainfx_payment_core.Paymaster.Amounts.Split.{plan-Splits}
use chainfx_payment_core.Paymaster.Amounts.Texts.{
  micro-printed, printed-ne-nil, decimal_to_token_units-micro_usdt_to_string,
}
use chainfx_payment_core.Paymaster.Batcher.{fee_text}
use chainfx_payment_core.Paymaster.Multicall.{legs_of, fee_calls, job_calls, transfer_call}
use chainfx_payment_core.Paymaster.Multicall.Encode.{Multicall3Call}
use chainfx_payment_core.Paymaster.Multicall.Amount.{amount_of, amount_of-encode}

unfoldable pub transferred : List Multicall3Call → ℕ
transferred [] = 0
transferred (c ∷ calls) = amount_of c.call_data + transferred calls

-- The micro-USDT of a job.
unfoldable pub total_of : TokenRelayer → RelayJob → ℕ
total_of tr job = elim (plan tr (trim_space job.amount)) [ none ↦ 0 | some p ↦ p.total_micro ]

-- What the batch transfers for a job, in micro-USDT: all of it if there is a wallet for the fee, else
-- all but the fee.
unfoldable pub delivered : TokenRelayer → RelayJob → ℕ
delivered tr job = elim (plan tr (trim_space job.amount)) [
  | none ↦ 0
  | some p ↦ if has_fee_destination tr then p.total_micro else p.total_micro - p.fee_micro
]

printed-is_empty : (n : ℕ) → is_empty (micro_usdt_to_string (pos n)) ≡ false
printed-is_empty n = ap is_empty (micro-printed n) ∙ printed-ne-nil (n / 1_000_000) (n % 1_000_000)

last_step :
    (b : Bool) (o : Option ℤ) (calls : List Multicall3Call) (r : List Multicall3Call × ℤ)
    → (if not b then none else elim o [ none ↦ none | some audit ↦ some (calls, audit) ]) ≡ some r
    → r.0 ≡ calls
last_step false o calls r h = absurd (ground (arith, h))
last_step true none calls r h = absurd (ground (arith, h))
last_step true (some audit) calls r h = ground (arith, h)

negated : (b : Bool) → not b ≡ true → b ≡ false
negated b h = ground (arith, h)

net_and_fee : (net fee total : ℕ) → pos net +ℤ pos fee ≡ pos total → net + fee ≡ total
unfolding ◌+ℤ◌
net_and_fee net fee total h = ground (arith, h)

module _ (tr : TokenRelayer) (token : Text) (k : ℕ) (few : k ≤ 24)
    (spread : tr.spread_bps < 10_000) where
  -- The text of a positive amount is not empty.
  fee_call :
      (to : Text) (fee : ℕ)
      → fee_calls token (6 + k) to (micro_usdt_to_string (pos fee))
        ≡ some (
            if ltb_ℤ (pos 0) (pos (fee * 10 ^ k))
            then transfer_call token to (fee * 10 ^ k) ∷ []
            else [])
  unfolding fee_calls
  fee_call to fee =
      rw (fee_calls, printed-is_empty fee, decimal_to_token_units-micro_usdt_to_string fee k few)
        refl

  charged :
      (to : Text) (units : ℕ)
      → units < 256 ^ 32
      → transferred (if ltb_ℤ (pos 0) (pos units) then transfer_call token to units ∷ [] else [])
        ≡ units
  unfolding transferred
  charged to units h = elim (Bool-cases (ltb_ℤ (pos 0) (pos units))) [
    | inl e ↦ rw e (omega (arith, amount_of-encode to units h))
    | inr e ↦ rw e (ground (arith, e))
  ]

  fee_calls-transferred :
      (p : RelayPlan) (to : Text)
      → p.fee_micro * 10 ^ k < 256 ^ 32
      → (calls : List Multicall3Call) × (fee_calls token (6 + k) to (fee_text tr p) ≡ some calls)
        × (transferred calls ≡ (if has_fee_destination tr then p.fee_micro * 10 ^ k else 0))
  unfolding fee_calls transferred
  fee_calls-transferred p to h = elim (Bool-cases (has_fee_destination tr)) [
    | inl e ↦ elim (Bool-cases (ltb 0 p.fee_micro)) [
      | inl f ↦ (
        if ltb_ℤ (pos 0) (pos (p.fee_micro * 10 ^ k))
            then transfer_call token to (p.fee_micro * 10 ^ k) ∷ []
            else [],
        rw (e, f) (fee_call to p.fee_micro),
        rw e (charged to (p.fee_micro * 10 ^ k) h),
      )
      | inr f ↦ (
        [],
        rw (e, f, fee_calls) refl,
        rw e (sym (ap (λ (n : ℕ). n * 10 ^ k) {y = 0} (ground (arith, f)) ∙ zero-mul (10 ^ k))),
      )
    ]
    | inr e ↦ ([], rw (e, fee_calls) refl, rw e refl)
  ]

  legs_sum :
      (total fee net : ℕ) (has : Bool) (t : ℕ)
      → net + fee ≡ total
      → t ≡ (if has then fee * 10 ^ k else 0)
      → net * 10 ^ k + t ≡ (if has then total else total - fee) * 10 ^ k
  legs_sum total fee net true t h e = rw (e, sym h) (sym (add-mul net fee (10 ^ k)))
  legs_sum total fee net false t h e =
      omega (arith, e, ap (λ (n : ℕ). n * 10 ^ k) {x = net} {y = total - fee} (omega (arith, h)))

  both_legs :
      (total fee net : ℕ) (has : Bool) (to : Text) (fees : List Multicall3Call)
      → net + fee ≡ total
      → total * 10 ^ k < 256 ^ 32
      → transferred fees ≡ (if has then fee * 10 ^ k else 0)
      → transferred (transfer_call token to (net * 10 ^ k) ∷ fees)
        ≡ (if has then total else total - fee) * 10 ^ k
  unfolding transferred
  both_legs total fee net has to fees h b t =
      let low : net * 10 ^ k < 256 ^ 32 =
        omega (arith, b, mul-le-mul_right {m = net} {n = total} (10 ^ k) (omega (arith, h))) in
      ap (λ (n : ℕ). n + transferred fees) (amount_of-encode to (net * 10 ^ k) low)
      ∙ legs_sum total fee net has (transferred fees) h t

  job_calls-steps :
      (job : RelayJob) (net fee : Text) (u : ℕ) (fees : List Multicall3Call)
      → legs_of (some tr) (trim_space job.amount) ≡ some (net, fee)
      → decimal_to_token_units net (6 + k) ≡ some (pos u)
      → fee_calls token (6 + k) tr.hot_wallet fee ≡ some fees
      → job_calls (some tr) token (6 + k) job ≡ (
          if not (ltb_ℤ (pos 0) (pos u)) then none else elim (decimal_to_token_units job.amount 6) [
            | none ↦ none
            | some audit ↦ some (transfer_call token job.to u ∷ fees, audit)
          ])
  unfolding job_calls
  job_calls-steps job net fee u fees l d f =
      elim (Option-cases (decimal_to_token_units job.amount 6)) [
        | inl y ↦ rw (job_calls, l, d, y) refl
        | inr (audit, y) ↦ rw (job_calls, l, d, y, f) refl
      ]

  job_calls-found :
      (job : RelayJob) (net fee : Text) (u : ℕ) (fees : List Multicall3Call)
      (r : List Multicall3Call × ℤ)
      → legs_of (some tr) (trim_space job.amount) ≡ some (net, fee)
      → decimal_to_token_units net (6 + k) ≡ some (pos u)
      → fee_calls token (6 + k) tr.hot_wallet fee ≡ some fees
      → job_calls (some tr) token (6 + k) job ≡ some r
      → r.0 ≡ transfer_call token job.to u ∷ fees
  unfolding job_calls
  job_calls-found job net fee u fees r l d f h =
      last_step (ltb_ℤ (pos 0) (pos u)) (decimal_to_token_units job.amount 6)
        (transfer_call token job.to u ∷ fees) r (sym (job_calls-steps job net fee u fees l d f) ∙ h)

  plan_legs :
      (p : RelayPlan) (amount : Text)
      → not (is_empty amount || text_eq amount (codes "0")) ≡ true
      → plan tr amount ≡ some p
      → legs_of (some tr) amount ≡ some (micro_usdt_to_string p.net_micro, fee_text tr p)
  unfolding legs_of
  plan_legs p amount z e =
      rw (legs_of, negated (is_empty amount || text_eq amount (codes "0")) z, e) refl

  no_legs :
      (amount : Text)
      → not (is_empty amount || text_eq amount (codes "0")) ≡ true
      → plan tr amount ≡ none
      → legs_of (some tr) amount ≡ none
  unfolding legs_of
  no_legs amount z e =
      rw (legs_of, negated (is_empty amount || text_eq amount (codes "0")) z, e) refl

  total_of-planned :
      (job : RelayJob) (p : RelayPlan)
      → plan tr (trim_space job.amount) ≡ some p
      → total_of tr job ≡ p.total_micro
  unfolding total_of
  total_of-planned job p e = rw (total_of, e) refl

  delivered-planned :
      (job : RelayJob) (p : RelayPlan)
      → plan tr (trim_space job.amount) ≡ some p
      → delivered tr job
        ≡ (if has_fee_destination tr then p.total_micro else p.total_micro - p.fee_micro)
  unfolding delivered
  delivered-planned job p e = rw (delivered, e) refl

  not_built :
      (job : RelayJob) (r : List Multicall3Call × ℤ)
      → legs_of (some tr) (trim_space job.amount) ≡ none
      → job_calls (some tr) token (6 + k) job ≢ some r
  unfolding job_calls
  not_built job r l = rw (job_calls, l) (λ h. ground (arith, h))

  planned_calls :
      (job : RelayJob) (r : List Multicall3Call × ℤ) (p : RelayPlan)
      → plan tr (trim_space job.amount) ≡ some p
      → p.total_micro * 10 ^ k < 256 ^ 32
      → not (is_empty (trim_space job.amount) || text_eq (trim_space job.amount) (codes "0")) ≡ true
      → job_calls (some tr) token (6 + k) job ≡ some r
      → transferred r.0
        ≡ (if has_fee_destination tr then p.total_micro else p.total_micro - p.fee_micro) * 10 ^ k
  unfolding transferred
  planned_calls job r p e b z h =
      let (read, positive, (adds, low, high), (n, net)) =
        plan-Splits tr (trim_space job.amount) p spread e in
      let whole : suc n + p.fee_micro ≡ p.total_micro =
        net_and_fee (suc n) p.fee_micro p.total_micro
          (ap (λ m. m +ℤ pos p.fee_micro) (sym net) ∙ adds) in
      let (fees, f, t) = fee_calls-transferred p tr.hot_wallet (
        omega (
          arith,
          b,
          mul-le-mul_right {m = p.fee_micro} {n = p.total_micro} (10 ^ k) (omega (arith, whole)),
        )) in
      let found =
        job_calls-found job (micro_usdt_to_string p.net_micro) (fee_text tr p) (suc n * 10 ^ k) fees
          r (plan_legs p (trim_space job.amount) z e)
          (ap (λ m. decimal_to_token_units (micro_usdt_to_string m) (6 + k)) net
            ∙ decimal_to_token_units-micro_usdt_to_string (suc n) k few)
          f h in
      ap transferred found
      ∙ both_legs (p.total_micro) p.fee_micro (suc n) (has_fee_destination tr) job.to fees whole b t

  pub job_calls-transferred :
      (job : RelayJob) (r : List Multicall3Call × ℤ)
      → total_of tr job * 10 ^ k < 256 ^ 32
      → not (is_empty (trim_space job.amount) || text_eq (trim_space job.amount) (codes "0")) ≡ true
      → job_calls (some tr) token (6 + k) job ≡ some r
      → transferred r.0 ≡ delivered tr job * 10 ^ k
  unfolding transferred
  job_calls-transferred job r b z h = elim (Option-cases (plan tr (trim_space job.amount))) [
    | inl e ↦ absurd (not_built job r (no_legs (trim_space job.amount) z e) h)
    | inr (p, e) ↦
        planned_calls job r p e
          (subst (λ (n : ℕ). n * 10 ^ k < 256 ^ 32) (total_of-planned job p e) b) z h
        ∙ ap (λ (n : ℕ). n * 10 ^ k) (sym (delivered-planned job p e))
  ]
