-- ===== src/Workers.antt =====
-- internal/workers: the bus of events between the workers, and the queue of the ones that failed.
pub mod Bus
pub mod Dlq
