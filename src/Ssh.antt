-- ===== src/Ssh.antt =====
-- src/ssh: the inspection of SSH files. Nothing here reads or writes a file.
pub mod TrustedCa
pub mod SshdConfig
