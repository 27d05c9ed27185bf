-- ===== src/Config/Validate.antt =====
-- src/config.rs: the validation of the configuration.
use mayfly_agent.Identity.Keypair.{validate_ed25519_public_key}
use mayfly_agent.Identity.Enrollment.{
  is_machine_id_char, max_interval_secs, min_interval_secs, max_machine_id_len,
}
use mayfly_agent.Text.Lines.{split}
use mayfly_agent.Text.Chars.{strip_prefix, byte_len, codes, starts_with_code, text_eq, Text}
use mayfly_agent.Result.{map_err, reject_if, ok, err, ◌>>◌, Result}
use mayfly_agent.Text.Trim.{trim}
use mayfly_agent.Identity.Machine.{as_secs}
use mayfly_agent.Config.{Config}
use mayfly_agent.Errors.{config_invalid, Error}
use mayfly_agent.Float.{Floats}
use mayfly_agent.Crates.{Crates, nanos_per_sec}
use mayfly_agent.Prelude.{
  ℕ, ◌%◌, String, Bool, not, ◌&&◌, ◌||◌, Option, none, some, ◌++◌, ltb, ◌==◌, is_empty, any, all,
}

abbrev pub invalid : String → Error
invalid message = config_invalid (codes message)

-- `"{field} {rest}"`.
abbrev pub invalid_field : String → String → Error
invalid_field field rest = config_invalid (codes field ++ codes rest)

abbrev pub check_host : Text → Result Error (Unit {0})
check_host host = reject_if (is_empty host) (invalid "server_url must include a host")

abbrev pub check_http : Bool → Option Text → Result Error (Unit {0})
check_http allow_insecure_tls none = err (invalid "server_url must use http or https")
check_http allow_insecure_tls (some host) = do
  reject_if (not allow_insecure_tls)
      (invalid "server_url must use https unless allow_insecure_tls is set")
  check_host host

abbrev pub check_scheme : Bool → Option Text → Option Text → Result Error (Unit {0})
check_scheme allow_insecure_tls (some host) http = check_host host
check_scheme allow_insecure_tls none http = check_http allow_insecure_tls http

unfoldable pub validate_config_url : Text → Bool → Result Error (Unit {0})
validate_config_url url allow_insecure_tls = do
  reject_if (is_empty (trim url)) (invalid "server_url must not be empty")
  reject_if (not (text_eq (trim url) url))
      (invalid "server_url must not have leading/trailing whitespace")
  check_scheme allow_insecure_tls (strip_prefix (codes "https://") url)
      (strip_prefix (codes "http://") url)

unfoldable pub validate_machine_id : Text → Result Error (Unit {0})
validate_machine_id machine_id = do
  reject_if (is_empty machine_id) (invalid "machine_id must not be empty")
  reject_if (ltb max_machine_id_len (byte_len machine_id)) (invalid "machine_id is too long")
  reject_if (not (all is_machine_id_char machine_id))
      (invalid "machine_id may only contain ASCII letters, digits, '-', '_' and '.'")
  ok tt

-- `Duration::subsec_nanos`.
abbrev pub subsec_nanos : ℕ → ℕ
subsec_nanos duration = duration % nanos_per_sec

unfoldable pub validate_interval : String → ℕ → Result Error (Unit {0})
validate_interval field value = do
  reject_if (not (subsec_nanos value == 0) || ltb (as_secs value) min_interval_secs)
      (invalid_field field " must be at least 1 second(s)")
  reject_if (ltb max_interval_secs (as_secs value))
      (invalid_field field " must be at most 86400 seconds")
  ok tt

unfoldable pub has_parent_dir : Text → Bool
has_parent_dir path = any (λ c. text_eq c (codes "..")) (split b'/' path)

unfoldable pub validate_managed_path : String → Text → Result Error (Unit {0})
validate_managed_path field path = do
  reject_if (is_empty path) (invalid_field field " must not be empty")
  reject_if (not (starts_with_code b'/' path)) (invalid_field field " must be an absolute path")
  reject_if (has_parent_dir path) (invalid_field field " must not contain '..' components")
  ok tt

abbrev pub validate_optional_path : String → Option Text → Result Error (Unit {0})
validate_optional_path field none = ok tt
validate_optional_path field (some path) = validate_managed_path field path

abbrev pub validate_optional_signing_key : Crates → Option Text → Result Error (Unit {0})
validate_optional_signing_key lib none = ok tt
validate_optional_signing_key lib (some key) = do
  reject_if (is_empty (trim key)) (invalid "bundle_signing_public_key must not be empty when set")
  map_err (λ _. invalid "bundle_signing_public_key is not a valid Ed25519 key")
      (validate_ed25519_public_key lib key)

module _ (fl : Floats) where
  unfoldable pub validate_jitter_ratio : fl.F → Result Error (Unit {0})
  validate_jitter_ratio ratio = do
    reject_if (not (fl.is_finite ratio) || not (fl.le_f fl.zero_f ratio && fl.le_f ratio fl.one_f))
        (invalid "poll_jitter_ratio must be between 0.0 and 1.0")
    ok tt

  unfoldable pub validate : Crates → Config fl → Result Error (Unit {0})
  validate lib config = do
    validate_config_url config.server_url config.allow_insecure_tls
    validate_machine_id config.machine_id
    validate_interval "heartbeat_interval" config.heartbeat_interval
    validate_interval "sync_interval" config.sync_interval
    validate_managed_path "trusted_ca_path" config.trusted_ca_path
    validate_managed_path "sshd_config_path" config.sshd_config_path
    validate_managed_path "state_dir" config.state_dir
    validate_managed_path "identity_dir" config.identity_dir
    validate_managed_path "helper_socket_path" config.helper_socket_path
    validate_managed_path "helper_token_path" config.helper_token_path
    validate_jitter_ratio config.poll_jitter_ratio
    validate_optional_signing_key lib config.bundle_signing_public_key
    validate_optional_path "tls_ca_path" config.tls_ca_path
