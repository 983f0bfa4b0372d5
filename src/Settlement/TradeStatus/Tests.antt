-- ===== src/Settlement/TradeStatus/Tests.antt =====
-- Runs of the canonical statuses of internal/transactions/contracts.go.
use chainfx_payment_core.Common.{◌≡◌, refl}
use chainfx_payment_core.Common.Text.{codes}
use chainfx_payment_core.Settlement.TradeStatus.{canonical_sell_status, deposit_pending}

waiting : canonical_sell_status (codes "AGUARDANDO_DEPOSITO") ≡ deposit_pending
unfolding canonical_sell_status
waiting = refl
