-- ===== src/Protocol/CaSync.antt =====
-- src/protocol/ca_sync.rs: one synchronisation pass. CaSync/Service holds the data and what the
-- pass is given, CaSync/Load the reads of the state files and the requests, CaSync/Step the writes,
-- CaSync/Pass the pass itself.
pub mod Service
pub mod Load
pub mod Step
pub mod Pass
pub mod Keeps
pub mod Pin
pub mod Generation
pub mod Delegated
pub mod Monotone
pub mod Updated
pub mod Reported
pub mod Covered
