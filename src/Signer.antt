-- ===== src/Signer.antt =====
-- signer: the guard that stops the signer.
pub mod Custody
