-- ===== src/Lib.antt =====
-- mayfly-agent, the service that keeps the OpenSSH `TrustedUserCAKeys` of a host in step with the
-- Mayfly server.
--
-- The agent fetches a signed CA bundle over HTTP, authenticates it, renders it as a
-- `TrustedUserCAKeys` file, parses that file again and hands it to a privileged helper.
--
-- Text.antt and its children model the operations of Rust strings that the agent uses. A string is
-- the list of its code points, a byte string the list of its bytes. Result.antt is `Result` and the
-- `?` operator. Errors.antt is src/errors.rs.
-- Crates.antt is a record of the third-party operations (key parsing, signatures, base64, SHA-256,
-- time stamps); everything that uses them takes such a record.
-- Ssh/TrustedCa.antt is src/ssh/trusted_ca.rs and Ssh/SshdConfig.antt is src/ssh/sshd_config.rs.
-- ConstantTime.antt is `constant_time_eq` of src/ipc/protocol.rs.
-- Identity/Keypair.antt is src/identity/keypair.rs, Identity/Machine.antt src/identity/machine.rs and
-- Identity/ApiClient.antt src/identity/api_client.rs. Identity/Enrollment.antt holds the data and the
-- checks of src/identity/enrollment.rs, Enrollment/Requests its service and the request it sends,
-- Enrollment/Service what the service does to the files.
-- Security.antt is src/security.rs over a file system that maps a path to what `lstat` and `read` see
-- there. Security/Write is `secure_write`, a sequence of system calls of which each may fail; the
-- states passed through are kept, since its promise is about all of them. Security/Store composes
-- such calls with reads for the clients.
-- Config.antt is src/config.rs: Config/Env the environment overrides, Config/Validate the validation
-- (`validate_config_url` is the method `validate_server_url`).
-- Bundle.antt is src/protocol/ca_bundle.rs: Bundle/Types its data, Bundle/Canonical the two encodings
-- and the fingerprint, Bundle/Validate `from_response` (its stages `authenticate`, `validate_content`
-- and `validate_window` are consecutive parts of that one function), Bundle/Render the rendered file.
--
-- Protocol/Signing.antt is src/protocol/signing.rs and Protocol/Heartbeat.antt is
-- src/protocol/heartbeat.rs. Protocol/CaSync is src/protocol/ca_sync.rs: a pass is a function on the
-- world, that is the five state files, the bodies handed to the helper and the reports sent. What
-- the server, the helper, the clock and the file system answer in one pass are fields of the service
-- record; a write may fail before or after the file is in place. `synchronize` is split into
-- consecutive parts: `process` after the response, `accept` up to the downgrade check, `settle` for
-- the choice between no change and `apply`, `conclude` for the outcome of `apply`.
-- Ipc/Protocol.antt is src/ipc/protocol.rs and Ipc/Client.antt src/ipc/client.rs, over a writer with
-- a limited room and a peer that is a function of the bytes it got.
--
-- Service/Scheduler.antt and Service/Polling.antt are src/service/scheduler.rs, Service/Backoff.antt
-- is src/service/backoff.rs and Service/Shutdown.antt src/service/shutdown.rs. Float.antt is a record
-- of the operations on f64 that they use, which stays a parameter. The three loops run on fuel: the
-- poll loop and the retries need one unit more than the number of the check that stops them, the
-- sleeper one more than the nanoseconds left.
-- Service/RuntimeState.antt is src/service/runtime_state.rs (its `read_generation` is
-- `current_generation`, its `read_optional_string` is `read_optional_text`), and
-- Service/Validation.antt is src/service/validation.rs. Service/State.antt is src/state.rs,
-- Platform.antt is src/platform/linux.rs and src/platform/systemd.rs.
--
-- Main.antt is src/main.rs, the process from the configuration to the exit code.
--
-- Service/Daemon.antt is src/service/daemon.rs, which puts these parts together: Daemon/Bookkeeping the
-- two callbacks and the poll loop over them, Daemon/Enrolling the enrollment at startup, Daemon/Run the
-- method `run`. Its state is the clock, the state files, the other files, the status and the heartbeats
-- sent; Daemon/Reaches states its steps as a relation. The history of the file system holds the other
-- files; the five state files live in the world of a pass, so a statement about every state of the
-- file system does not see their writes. Every call takes its own time and meets its own
-- server, helper and file system. The enrollment has fuel for its attempts, which is enough when it is
-- more than the number of the check at which shutdown is requested, and the poll loop has fuel for its
-- cycles, which is enough when it is more than the nanoseconds until shutdown is requested.
--
-- An instant is a number of nanoseconds since the first representable one. A u64 is a natural number;
-- where the source parses one, the bound 2^64 is checked. Loops over lists are structural recursion;
-- printing a number in decimal runs on fuel that its size bounds.
--
-- Not modelled: JSON and TOML parsing, HTTP and TLS, logging, system calls, signal handlers and
-- process set-up, since these are calls of libraries and of the operating system.
pub mod Prelude
pub mod Text
pub mod Result
pub mod Errors
pub mod Ssh
pub mod Crates
pub mod ConstantTime
pub mod Identity
pub mod Bundle
pub mod Protocol
pub mod Ipc
pub mod Float
pub mod Service
pub mod Security
pub mod Config
pub mod Platform
pub mod Main
pub mod Tests
