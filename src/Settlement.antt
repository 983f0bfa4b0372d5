-- ===== src/Settlement.antt =====
-- internal/settlement: reconciliation.go, and the status of the PIX webhook in settlement.go; the
-- canonical status of a trade in internal/transactions/contracts.go.
pub mod Reconciliation
pub mod PixStatus
pub mod TradeStatus
