-- ===== src/Nfc.antt =====
-- internal/nfc: the APDU that carries a payment token.
pub mod Protocol
