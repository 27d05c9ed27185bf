-- ===== src/Identity.antt =====
-- src/identity: the machine's identity and its enrollment.
pub mod Keypair
pub mod Machine
pub mod Enrollment
pub mod ApiClient
