-- ===== src/Config.antt =====
-- web_checker/config.py: the values of a configuration, and the checks that make it.
pub mod Values
pub mod Definitions
pub mod Parse
pub mod Delay
