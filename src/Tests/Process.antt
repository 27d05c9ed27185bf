-- ===== src/Tests/Process.antt =====
-- The process of an agent whose file names a server over http, for development.
use mayfly_agent.Protocol.CaSync.Pass.{process, synchronize, settle}
use mayfly_agent.Service.Validation.{
  failed_names, ssh_compat_check, read_nonempty, into_result, validate_startup, helper_check,
}
use mayfly_agent.Main.{
  success, ExitCode, startup_checks, run_agent, config_path, Process, main, loaded,
}
use mayfly_agent.Protocol.CaSync.Load.{
  read_generation, read_optional, parse_generation, read_optional_string, sign_at, load_state,
  trimmed_text, fetch_bundle,
}
use mayfly_agent.Text.Utf8.{as_bytes, from_utf8}
use mayfly_agent.Service.Daemon.Bookkeeping.{
  record_heartbeat, run_poll_loop, record_sync, sleep_for, persist_status,
}
use mayfly_agent.Security.Write.{
  atomic_replace, parent, write_contents, fill, parent_of, secure_write,
}
use mayfly_agent.Service.State.{new_state}
use mayfly_agent.Identity.Enrollment.{is_valid_interval, validate_server_url, validate_hostname}
use mayfly_agent.Security.{
  validate_owner, metadata, ensure_not_group_or_world_writable, symlink_metadata, is_symlink,
  validate_mode_at_most, ensure_not_symlink,
}
use mayfly_agent.Service.RuntimeState.{
  ensure_state_dir, save_status, load_status, read_optional_file, read_optional_text,
  current_generation, status_path,
}
use mayfly_agent.Service.Daemon.Run.{Ended, recover, stop_cleanly, work, after_enrollment}
use mayfly_agent.Platform.{local_ip, host_facts, is_systemd}
use mayfly_agent.Service.Scheduler.{
  take_heartbeat, take_sync, next_u64, new_interval, next_delay, next_due, new_scheduler, take_due,
}
use mayfly_agent.Identity.Keypair.{
  public_key_openssh, sign, from_openssh_private, validate_ed25519_public_key,
}
use mayfly_agent.Service.Shutdown.{sleep_chunks, clamp_step}
use mayfly_agent.Service.Polling.{run_polling, run_actions, poll_cycle, wait_for_due}
use mayfly_agent.Identity.Enrollment.Requests.{
  validate_private_key_security, new_service, is_enrolled, join,
}
use mayfly_agent.Security.Store.{read_to_string, is_dir, and_then, read_file, is_file}
use mayfly_agent.Text.Integer.{difference}
use mayfly_agent.Protocol.Heartbeat.{send_heartbeat, validate_response}
use mayfly_agent.Protocol.CaSync.Reported.{generation_of}
use mayfly_agent.Service.Daemon.Enrolling.{ensure_enrolled}
use mayfly_agent.Protocol.Signing.{unix_timestamp, sign_request}
use mayfly_agent.Text.Trim.{trim_end_matches, trim, trim_start, trim_end}
use mayfly_agent.Identity.Enrollment.Service.{read_keypair, load_machine_identity}
use mayfly_agent.Protocol.CaSync.Step.{write_timestamp}
use mayfly_agent.Text.Decimal.{decimal, parse_u64, parse_digits}
use mayfly_agent.Protocol.CaSync.Step as Step
use mayfly_agent.Service.Daemon.Run as Daemon
use mayfly_agent.Config.{
  generation_path, bundle_fingerprint_path, bundle_signing_key_path, parse_format, parse_level,
  Config, TomlConfig, with_defaults,
}
use mayfly_agent.Identity.Machine.{load, into_identity}
use mayfly_agent.Config.Validate.{
  has_parent_dir, validate_managed_path, validate_jitter_ratio, validate_interval,
  validate_machine_id, validate_config_url, validate,
}
use mayfly_agent.Config.Env.{
  parse_f64_field, parse_bool, apply_env_overrides, parse_u64_field, key, load_config,
  from_toml_with_env,
}
use mayfly_agent.Text.Chars.{
  starts_with_code, byte_len, to_ascii_lowercase, strip_prefix, is_whitespace,
  is_ascii_alphanumeric, is_control, codes, ends_with_code, text_eq,
}
use mayfly_agent.Text.Lines.{split}
use mayfly_agent.Errors.{Error}
use mayfly_agent.Result.{Result, ok, err}
use mayfly_agent.Prelude.{◌≡◌, refl, sym, ap, ◌∙◌, true, false, Option, none, some, []}
use mayfly_agent.Main.Exits.{main-ExitCases, ExitCases}
use mayfly_agent.Tests.Toy.{toy, five_seconds}
use mayfly_agent.Tests.Cadence.{toy_floats}
use mayfly_agent.Tests.Startups.{no_helper}
use mayfly_agent.Tests.Daemon.{start, at_boot}
use mathlib.Core.Path.{subst}

abbrev toml : TomlConfig toy_floats
toml = record {
  server_url = codes "http://localhost";
  machine_id = codes "host-01";
  heartbeat_secs = none;
  sync_secs = some 30;
  trusted_ca_path = none;
  sshd_config_path = none;
  state_dir = none;
  identity_dir = none;
  helper_socket_path = none;
  helper_token_path = none;
  bundle_signing_public_key = none;
  poll_jitter_ratio = none;
  log_level = none;
  log_format = none;
  allow_insecure_tls = some true;
  tls_ca_path = none;
}

abbrev agent : Process toy_floats
agent = record {
  lib = toy;
  from_str = λ raw. some toml;
  read = λ path. ok [];
  env = λ name. none;
  helper = no_helper;
  started = five_seconds;
  startup = start;
}

abbrev config_or : Result Error (Config toy_floats) → Config toy_floats
config_or (ok config) = config
config_or (err e) = with_defaults toy_floats toml

agent-loaded : loaded toy_floats agent ≡ ok (with_defaults toy_floats toml)
unfolding with_defaults validate validate_config_url trim is_whitespace text_eq strip_prefix
    validate_machine_id byte_len is_ascii_alphanumeric validate_interval validate_managed_path
    starts_with_code has_parent_dir split validate_jitter_ratio trim_start trim_end
    apply_env_overrides from_toml_with_env load_config loaded config_path key parse_bool
    parse_f64_field parse_u64_field parse_format parse_level to_ascii_lowercase parse_digits
    parse_u64 validate_ed25519_public_key is_control
agent-loaded = refl

apart :
    (config : Config toy_floats)
    → loaded toy_floats agent ≡ ok config
    → text_eq (status_path toy_floats config) (codes "/s/.tmp1") ≡ false
unfolding text_eq with_defaults join ends_with_code status_path
apart config l =
    let same : with_defaults toy_floats toml ≡ config = ap config_or (sym agent-loaded ∙ l) in
    subst (λ c. text_eq (status_path toy_floats c) (codes "/s/.tmp1") ≡ false) same refl

main-ExitCases_example :
    ExitCases toy_floats agent at_boot (main toy_floats agent 2 4_000_000_001 at_boot)
main-ExitCases_example = main-ExitCases toy_floats agent apart 2 4_000_000_001 at_boot

abbrev code_of : Option (Ended × ExitCode) → Option ExitCode
code_of none = none
code_of (some (ended, code)) = some code

-- It exits with success.
main-success : code_of (main toy_floats agent 2 4_000_000_001 at_boot) ≡ some success
unfolding Daemon.run ensure_state_dir ensure_not_symlink is_symlink symlink_metadata and_then
    ensure_enrolled is_enrolled is_file new_service join ends_with_code load_machine_identity
    read_keypair validate_private_key_security validate_owner metadata
    ensure_not_group_or_world_writable validate_mode_at_most read_to_string read_file from_utf8
    from_openssh_private text_eq public_key_openssh validate_ed25519_public_key load into_identity
    with_defaults after_enrollment work recover current_generation generation_path
    read_optional_text read_optional_file trimmed_text parse_u64 parse_digits trim trim_start
    trim_end is_whitespace load_status status_path save_status secure_write write_contents fill
    atomic_replace parent_of parent trim_end_matches host_facts local_ip stop_cleanly run_poll_loop
    run_polling poll_cycle wait_for_due next_due take_due take_heartbeat take_sync next_delay
    next_u64 new_scheduler new_interval run_actions record_heartbeat record_sync persist_status
    sleep_for sleep_chunks send_heartbeat sign_request sign validate_response synchronize load_state
    fetch_bundle sign_at settle process write_timestamp read_generation read_optional_string
    read_optional parse_generation as_bytes decimal Step.secure_write unix_timestamp clamp_step
    difference bundle_fingerprint_path bundle_signing_key_path generation_of is_valid_interval
    validate_hostname validate_server_url validate validate_config_url strip_prefix
    validate_machine_id byte_len is_ascii_alphanumeric validate_interval validate_managed_path
    starts_with_code has_parent_dir split validate_jitter_ratio apply_env_overrides
    from_toml_with_env load_config loaded config_path key parse_bool parse_f64_field parse_u64_field
    parse_format parse_level to_ascii_lowercase is_control main run_agent startup_checks into_result
    validate_startup helper_check ssh_compat_check read_nonempty is_dir is_systemd new_state
    failed_names
main-success = refl
