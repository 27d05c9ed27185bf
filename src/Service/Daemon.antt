-- ===== src/Service/Daemon.antt =====
-- src/service/daemon.rs: the daemon. Daemon/Bookkeeping holds the two callbacks and the poll loop,
-- Daemon/Enrolling the enrollment at startup, Daemon/Run the whole of `run`.
pub mod Bookkeeping
pub mod Enrolling
pub mod Reaches
pub mod Honest
pub mod Stops
pub mod Running
pub mod Run
