-- ===== src/Scheduler.antt =====
-- The scheduler service.
pub mod Cleanup
