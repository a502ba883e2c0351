-- ===== src/Core.antt =====
-- web_checker/core: the values, their comparison, the check service and the scheduler.
pub mod Models
pub mod Transitions
pub mod Scheduler
pub mod Service
