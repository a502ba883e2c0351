-- ===== src/Drivers.antt =====
-- web_checker/drivers: the drivers that read availability from a provider.
pub mod BcParks
pub mod GenericHtml
