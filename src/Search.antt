-- ===== src/Search.antt =====
-- The search service.
pub mod Routes
pub mod Startup
