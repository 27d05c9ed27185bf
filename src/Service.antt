-- ===== src/Service.antt =====
-- src/service: the scheduler, the poll loop, back-off, shutdown and the daemon.
pub mod Scheduler
pub mod Polling
pub mod Shutdown
pub mod Backoff
pub mod RuntimeState
pub mod Validation
pub mod State
pub mod Daemon
