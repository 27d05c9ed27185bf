-- ===== src/Tests.antt =====
-- Concrete runs of the model, and concrete instances of its theorems.
pub mod Toy
pub mod Sshd
pub mod Bundles
pub mod Encodings
pub mod TrustedKeys
pub mod Requests
pub mod Sync
pub mod Ipc
pub mod Cadence
pub mod Retries
pub mod Writes
pub mod Enrolling
pub mod Configs
pub mod Startups
pub mod Daemon
pub mod Starting
pub mod Process
