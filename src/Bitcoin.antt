-- ===== src/Bitcoin.antt =====
-- internal/bitcoin: the coins that pay for a transaction, and the bytes of the transaction.
pub mod CoinSelect
pub mod Base58
pub mod Wire
pub mod Tx
