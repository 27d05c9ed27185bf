-- ===== src/Ipc.antt =====
-- src/ipc: the client of the privileged helper.
pub mod Protocol
pub mod Client
pub mod Applier
