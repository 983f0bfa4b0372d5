-- ===== src/Mobile.antt =====
-- internal/mobile: the idempotency of the operations that move money.
pub mod Idempotency
