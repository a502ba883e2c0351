-- ===== src/Notifications.antt =====
-- web_checker/notifications: the values, the registry of adapters and the two dispatchers.
pub mod Models
pub mod Registry
pub mod Service
pub mod Operational
pub mod Email
pub mod Defaults
