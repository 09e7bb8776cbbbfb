-- ===== src/Observability.antt =====
-- internal/observability: the counters and the logger.
pub mod Metrics
pub mod Logger
