-- ===== src/Gateway.antt =====
-- apps/gateway: the API gateway.
pub mod RateLimiter
pub mod Lockout
pub mod Token
pub mod Proxy
pub mod Sockets
pub mod Settings
pub mod Health
