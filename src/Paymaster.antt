-- ===== src/Paymaster.antt =====
-- internal/paymaster: the locks on signatures and the submission of a relay.
pub mod SigLock
pub mod Relay
pub mod Amounts
pub mod Batcher
pub mod Multicall
