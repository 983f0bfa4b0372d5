-- ===== src/Security.antt =====
-- internal/security: the nonces that keep a signed request from being replayed.
pub mod Nonce
