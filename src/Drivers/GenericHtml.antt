-- ===== src/Drivers/GenericHtml.antt =====
-- web_checker/drivers/generic_html: a driver for pages of repeated elements, whose rules of
-- extraction are configured.
pub mod Rules
pub mod Parser
pub mod Driver
