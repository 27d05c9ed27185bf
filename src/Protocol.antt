-- ===== src/Protocol.antt =====
-- src/protocol: signed requests, the heartbeat, and the synchronisation of the CA bundle.
pub mod Http
pub mod Signing
pub mod Heartbeat
pub mod CaSync
