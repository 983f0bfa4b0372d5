-- ===== src/Settlement/TradeStatus.antt =====
-- internal/transactions/contracts.go: the canonical status of a trade and the id of a chain.
mod Tests
use chainfx_payment_core.Common.{
  ℕ, ◌≡◌, Bool, ◌||◌, true, false, arith, ◌⊎◌, inl, inr, refl, if◌then◌else◌,
}
use chainfx_payment_core.Common.Text.{Text, codes, text_eq, to_lower, trim_space, contains}
use chainfx_payment_core.Transactions.{normalize_network}
use chainfx_payment_core.Settlement.PixStatus.{
  pix_webhook_status, is_paid, status_error, status_paid_fiat,
}

pub data TradeStatus : Type 0 where
  created quote_created quote_accepted payment_pending payment_confirmed : TradeStatus
  compliance_approved settlement_pending signing broadcasted onchain_confirmed : TradeStatus
  delivered completed deposit_pending onchain_detected confirmations_pending : TradeStatus
  confirmed pix_pending pix_sent failed : TradeStatus

-- Zero for a network that is not known.
pub chain_id : Text → ℕ
unfolding normalize_network text_eq
chain_id network =
    let n = normalize_network network in
    if text_eq n (codes "BSC")
    then 56
    else if text_eq n (codes "POLYGON")
    then 137
    else if text_eq n (codes "BASE")
    then 8453
    else if text_eq n (codes "ARBITRUM")
    then 42161
    else if text_eq n (codes "OPTIMISM")
    then 10
    else if text_eq n (codes "ETHEREUM")
    then 1
    else 0

pub canonical_buy_status : Text → TradeStatus
unfolding contains to_lower trim_space
canonical_buy_status status =
    let s = to_lower (trim_space status) in
    if contains s (codes "aguardando_pix")
      || contains s (codes "aguardando_card")
      || contains s (codes "payment_provider_pending")
    then payment_pending
    else if contains s (codes "pago")
    then payment_confirmed
    else if contains s (codes "processando") || contains s (codes "settlement")
    then settlement_pending
    else if contains s (codes "enviado") || contains s (codes "delivered")
    then delivered
    else if contains s (codes "conclu")
    then completed
    else if contains s (codes "erro") || contains s (codes "failed")
    then failed
    else created

pub canonical_sell_status : Text → TradeStatus
unfolding contains to_lower trim_space
canonical_sell_status status =
    let s = to_lower (trim_space status) in
    if contains s (codes "aguardando_deposito")
    then deposit_pending
    else if contains s (codes "pago")
    then onchain_detected
    else if contains s (codes "processando")
    then pix_pending
    else if contains s (codes "conclu")
    then completed
    else if contains s (codes "erro")
        || contains s (codes "expirada")
        || contains s (codes "incidente")
    then failed
    else created

pix_webhook_status-cases :
    (report : Text)
    → (pix_webhook_status report ≡ status_paid_fiat) ⊎ (pix_webhook_status report ≡ status_error)
unfolding pix_webhook_status
pix_webhook_status-cases report = ground arith

of_paid :
    (canonical_buy_status status_paid_fiat ≡ payment_confirmed) × (is_paid status_paid_fiat ≡ true)
unfolding canonical_buy_status is_paid text_eq contains to_lower trim_space
of_paid = (refl, refl)

of_error : (canonical_buy_status status_error ≡ failed) × (is_paid status_error ≡ false)
unfolding canonical_buy_status is_paid text_eq contains to_lower trim_space
of_error = (refl, refl)

-- A purchase whose PIX provider reported back is, by the canonical status of what the webhook stores,
-- confirmed if it counts as paid and failed otherwise, never still pending.
pub canonical_buy_status-pix_webhook_status :
    (report : Text)
    → let status = pix_webhook_status report in
      canonical_buy_status status ≡ (if is_paid status then payment_confirmed else failed)
canonical_buy_status-pix_webhook_status report = elim (pix_webhook_status-cases report) [
  | inl e ↦ rw (e, of_paid.0, of_paid.1)
  | inr e ↦ rw (e, of_error.0, of_error.1)
]
