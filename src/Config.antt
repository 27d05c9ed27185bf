-- ===== src/Config.antt =====
-- src/config.rs: the configuration, its defaults and the paths derived from it. Config/Env holds the
-- environment overrides, Config/Validate the validation.
pub mod Env
pub mod Validate
pub mod Valid
pub mod ServerUrl
use mayfly_agent.Text.Trim.{trim}
use mayfly_agent.Identity.Enrollment.Requests.{join}
use mayfly_agent.Text.Chars.{to_ascii_lowercase, text_eq, codes, Text}
use mayfly_agent.Identity.Machine.{from_secs}
use mayfly_agent.Float.{Floats}
use mayfly_agent.Prelude.{
  ℕ, String, Bool, false, Option, none, some, List, [], ◌∷◌, map, if◌then◌else◌,
}

abbrev pub default_heartbeat_secs : ℕ
default_heartbeat_secs = 60

abbrev pub default_sync_secs : ℕ
default_sync_secs = 300

abbrev pub default_trusted_ca_path : Text
default_trusted_ca_path = codes "/etc/ssh/mayfly/trusted_user_ca_keys"

abbrev pub default_sshd_config_path : Text
default_sshd_config_path = codes "/etc/ssh/sshd_config.d/mayfly.conf"

abbrev pub default_state_dir : Text
default_state_dir = codes "/var/lib/mayfly"

abbrev pub default_identity_dir : Text
default_identity_dir = codes "/etc/mayfly-agent"

abbrev pub default_helper_socket_path : Text
default_helper_socket_path = codes "/run/mayfly/helper.sock"

abbrev pub default_helper_token_path : Text
default_helper_token_path = codes "/etc/mayfly-agent/helper.token"

abbrev pub generation_file : Text
generation_file = codes "current_generation"

abbrev pub bundle_fingerprint_file : Text
bundle_fingerprint_file = codes "current_bundle.sha256"

abbrev pub last_sync_file : Text
last_sync_file = codes "last_sync"

abbrev pub last_success_file : Text
last_success_file = codes "last_success"

abbrev pub signing_key_file : Text
signing_key_file = codes "bundle_signing_key.pub"

pub data LogLevel : Type 0 where
  trace debug info warn error : LogLevel

pub data LogFormat : Type 0 where
  json pretty : LogFormat

-- The value of the first entry whose name is the text.
abbrev pub lookup_name : {A : Type 0} → List (String × A) → Text → Option A
lookup_name [] s = none
lookup_name ((name, a) ∷ names) s = if text_eq s (codes name) then some a else lookup_name names s

-- `trim().to_ascii_lowercase()`.
abbrev pub normalized : Text → Text
normalized s = map to_ascii_lowercase (trim s)

unfoldable pub parse_level : Text → Option LogLevel
parse_level s =
    lookup_name
      (("trace", trace)
        ∷ ("debug", debug)
        ∷ ("info", info)
        ∷ ("warn", warn)
        ∷ ("error", error)
        ∷ [])
      (normalized s)

unfoldable pub parse_format : Text → Option LogFormat
parse_format s = lookup_name (("json", json) ∷ ("pretty", pretty) ∷ []) (normalized s)

pub record Config (fl : Floats) : Type 0 where
  pub server_url : Text
  pub machine_id : Text
  pub heartbeat_interval : ℕ
  pub sync_interval : ℕ
  pub trusted_ca_path : Text
  pub sshd_config_path : Text
  pub state_dir : Text
  pub identity_dir : Text
  pub helper_socket_path : Text
  pub helper_token_path : Text
  pub bundle_signing_public_key : Option Text
  pub poll_jitter_ratio : fl.F
  pub log_level : LogLevel
  pub log_format : LogFormat
  pub allow_insecure_tls : Bool
  pub tls_ca_path : Option Text

-- What stands in the file: serde fills in the fields that have a default.
pub record TomlConfig (fl : Floats) : Type 0 where
  pub server_url : Text
  pub machine_id : Text
  pub heartbeat_secs : Option ℕ
  pub sync_secs : Option ℕ
  pub trusted_ca_path : Option Text
  pub sshd_config_path : Option Text
  pub state_dir : Option Text
  pub identity_dir : Option Text
  pub helper_socket_path : Option Text
  pub helper_token_path : Option Text
  pub bundle_signing_public_key : Option Text
  pub poll_jitter_ratio : Option fl.F
  pub log_level : Option LogLevel
  pub log_format : Option LogFormat
  pub allow_insecure_tls : Option Bool
  pub tls_ca_path : Option Text

abbrev pub unwrap_or : {A : Type 0} → A → Option A → A
unwrap_or d none = d
unwrap_or d (some a) = a

module _ (fl : Floats) where
  -- 0.10 is the float nearest to a tenth, as is the quotient.
  abbrev pub default_poll_jitter_ratio : fl.F
  default_poll_jitter_ratio = fl.div fl.one_f (fl.of_u64 10)

  unfoldable pub with_defaults : TomlConfig fl → Config fl
  with_defaults toml = record {
    server_url = toml.server_url;
    machine_id = toml.machine_id;
    heartbeat_interval = from_secs (unwrap_or default_heartbeat_secs toml.heartbeat_secs);
    sync_interval = from_secs (unwrap_or default_sync_secs toml.sync_secs);
    trusted_ca_path = unwrap_or default_trusted_ca_path toml.trusted_ca_path;
    sshd_config_path = unwrap_or default_sshd_config_path toml.sshd_config_path;
    state_dir = unwrap_or default_state_dir toml.state_dir;
    identity_dir = unwrap_or default_identity_dir toml.identity_dir;
    helper_socket_path = unwrap_or default_helper_socket_path toml.helper_socket_path;
    helper_token_path = unwrap_or default_helper_token_path toml.helper_token_path;
    bundle_signing_public_key = toml.bundle_signing_public_key;
    poll_jitter_ratio = unwrap_or default_poll_jitter_ratio toml.poll_jitter_ratio;
    log_level = unwrap_or info toml.log_level;
    log_format = unwrap_or json toml.log_format;
    allow_insecure_tls = unwrap_or false toml.allow_insecure_tls;
    tls_ca_path = toml.tls_ca_path;
  }

  unfoldable pub generation_path : Config fl → Text
  generation_path config = join config.state_dir generation_file

  unfoldable pub bundle_fingerprint_path : Config fl → Text
  bundle_fingerprint_path config = join config.state_dir bundle_fingerprint_file

  unfoldable pub last_sync_path : Config fl → Text
  last_sync_path config = join config.state_dir last_sync_file

  unfoldable pub last_success_path : Config fl → Text
  last_success_path config = join config.state_dir last_success_file

  unfoldable pub bundle_signing_key_path : Config fl → Text
  bundle_signing_key_path config = join config.state_dir signing_key_file
