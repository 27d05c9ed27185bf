-- ===== src/Tests/Configs.antt =====
-- Instances of the theorems on the configuration.
use mayfly_agent.Text.Lines.{split}
use mayfly_agent.Text.Chars.{
  text_eq, is_whitespace, byte_len, is_ascii_alphanumeric, starts_with_code, strip_prefix, codes,
}
use mayfly_agent.Config.Validate.{
  validate_interval, validate_jitter_ratio, validate_machine_id, validate_config_url,
  has_parent_dir, validate_managed_path, validate,
}
use mayfly_agent.Text.Trim.{trim_start, trim_end, trim}
use mayfly_agent.Result.{ok}
use mayfly_agent.Config.Valid.{validate-IsValid, IsValid}
use mayfly_agent.Config.{with_defaults, Config}
use mayfly_agent.Config.ServerUrl.{validate-UrlCases, UrlCases}
use mayfly_agent.Tests.Toy.{toy}
use mayfly_agent.Tests.Cadence.{toy_floats}
use mayfly_agent.Prelude.{◌≡◌, refl, ◌↔◌, true, none, some}

-- A server over http, for development.
abbrev pub config : Config toy_floats
config = with_defaults toy_floats (record {
  server_url = codes "http://localhost";
  machine_id = codes "host-01";
  heartbeat_secs = none;
  sync_secs = some 30;
  trusted_ca_path = none;
  sshd_config_path = none;
  state_dir = none;
  identity_dir = none;
  helper_socket_path = none;
  helper_token_path = none;
  bundle_signing_public_key = none;
  poll_jitter_ratio = none;
  log_level = none;
  log_format = none;
  allow_insecure_tls = some true;
  tls_ca_path = none;
})

config_validates : validate toy_floats toy config ≡ ok tt
unfolding validate validate_config_url trim with_defaults is_whitespace text_eq strip_prefix
    validate_machine_id byte_len is_ascii_alphanumeric validate_interval validate_managed_path
    starts_with_code has_parent_dir split validate_jitter_ratio trim_start trim_end
config_validates = refl

validate-IsValid_example : (validate toy_floats toy config ≡ ok tt) ↔ IsValid toy_floats toy config
validate-IsValid_example = validate-IsValid toy_floats toy config

validate-UrlCases_example : UrlCases config.server_url config.allow_insecure_tls
validate-UrlCases_example = validate-UrlCases toy_floats toy config config_validates
