-- ===== src/Analytics.antt =====
-- The analytics service.
pub mod Consumer
pub mod Tracking
pub mod Startup
pub mod Queries
