-- ===== src/Resilience.antt =====
-- internal/resilience: the circuit breaker (circuit_breaker.go) and the retry loop (retry.go).
pub mod Breaker
pub mod Retry
