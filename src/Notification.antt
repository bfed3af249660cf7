-- ===== src/Notification.antt =====
-- The notification service.
pub mod Alerts
