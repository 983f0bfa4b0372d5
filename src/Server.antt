-- ===== src/Server.antt =====
-- internal/server: the limits on the requests of one client.
pub mod Ratelimit
pub mod PenaltyBox
