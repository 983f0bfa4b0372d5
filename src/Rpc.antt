-- ===== src/Rpc.antt =====
-- internal/rpc: the pool of the nodes of the chain.
pub mod Pool
