-- ===== src/Bundle.antt =====
-- src/protocol/ca_bundle.rs: the CA bundle, from the untrusted response to the rendered file.
pub mod Types
pub mod Canonical
pub mod Validate
pub mod Render
pub mod Accepted
