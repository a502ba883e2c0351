-- ===== src/Drivers/BcParks.antt =====
-- web_checker/drivers/bcparks_dayuse: the driver of the BC Parks day-use API.
pub mod Models
pub mod Parser
pub mod Config
pub mod Responses
pub mod Windows
pub mod Slots
pub mod Driver
