-- ===== src/Auth.antt =====
-- The auth service.
pub mod Tokens
pub mod Accounts
pub mod Routes
pub mod Settings
