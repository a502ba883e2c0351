-- ===== src/MockSite.antt =====
-- mock_site: the BC Parks part of the mock provider, with its development controls.
pub mod State
pub mod Defaults
pub mod Controls
pub mod Routes
pub mod Sound
pub mod Accepted
