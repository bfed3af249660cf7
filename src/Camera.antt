-- ===== src/Camera.antt =====
-- The camera service.
pub mod Service
pub mod Upload
pub mod Validation
pub mod Routes
pub mod Router
pub mod HealthChecker
pub mod Settings
mod Tests
