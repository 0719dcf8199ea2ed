-- ===== src/Scheduler.antt =====
-- fpt/scheduler: what may be fetched, and when.
pub mod Limiter
pub mod Queue
