-- ===== src/Config/Env.antt =====
-- src/config.rs: the environment overrides and the loading of the configuration.
use mayfly_agent.Errors.{config_read, config_parse, config_invalid, Error}
use mayfly_agent.Result.{map_err, ok_or, ok, ◌>>=◌, ◌>>◌, Result}
use mayfly_agent.Config.{
  normalized, parse_format, with_defaults, lookup_name, parse_level, TomlConfig, Config,
}
use mayfly_agent.Text.Decimal.{parse_u64}
use mayfly_agent.Identity.Machine.{from_secs}
use mayfly_agent.Text.Chars.{codes, Text}
use mayfly_agent.Crates.{Crates}
use mayfly_agent.Text.Trim.{trim}
use mayfly_agent.Float.{Floats}
use mayfly_agent.Config.Validate.{validate}
use mayfly_agent.Prelude.{
  ℕ, String, Bool, true, false, Option, none, some, [], ◌∷◌, ◌++◌, if◌then◌else◌, is_empty,
}

unfoldable pub key : String → Text
key suffix = codes "MAYFLY_AGENT_" ++ codes suffix

unfoldable pub parse_u64_field : String → Text → Result Error ℕ
parse_u64_field field value =
    ok_or (config_invalid (codes field ++ codes " must be a non-negative integer"))
      (parse_u64 (trim value))

unfoldable pub parse_bool : String → Text → Result Error Bool
parse_bool field value = ok_or (config_invalid (codes field ++ codes " must be a boolean")) (
    lookup_name
      (("true", true)
        ∷ ("1", true)
        ∷ ("yes", true)
        ∷ ("on", true)
        ∷ ("false", false)
        ∷ ("0", false)
        ∷ ("no", false)
        ∷ ("off", false)
        ∷ [])
      (normalized value))

-- A blank value clears the field.
abbrev pub trimmed_or_none : Text → Option Text
trimmed_or_none value = if is_empty (trim value) then none else some (trim value)

module _ (fl : Floats) where
  unfoldable pub parse_f64_field : String → Text → Result Error fl.F
  parse_f64_field field value =
      ok_or (config_invalid (codes field ++ codes " must be a number")) (fl.parse_f64 (trim value))

  abbrev pub Override : Type 0
  Override = Text → Config fl → Result Error (Config fl)

  -- `if let Some(v) = get_env(&key(suffix))`.
  abbrev pub when_set : Option Text → Override → Config fl → Result Error (Config fl)
  when_set none f config = ok config
  when_set (some value) f config = f value config

  abbrev pub override_heartbeat : Override
  override_heartbeat v config = do
    secs ← parse_u64_field "heartbeat_interval" v
    ok (record config { heartbeat_interval = from_secs secs })

  abbrev pub override_sync : Override
  override_sync v config = do
    secs ← parse_u64_field "sync_interval" v
    ok (record config { sync_interval = from_secs secs })

  abbrev pub override_jitter : Override
  override_jitter v config = do
    ratio ← parse_f64_field "poll_jitter_ratio" v
    ok (record config { poll_jitter_ratio = ratio })

  abbrev pub override_level : Override
  override_level v config = do
    level ← ok_or (config_invalid (codes "log_level is not a valid level")) (parse_level v)
    ok (record config { log_level = level })

  abbrev pub override_format : Override
  override_format v config = do
    format ← ok_or (config_invalid (codes "log_format must be 'json' or 'pretty'")) (parse_format v)
    ok (record config { log_format = format })

  abbrev pub override_insecure : Override
  override_insecure v config = do
    allow ← parse_bool "allow_insecure_tls" v
    ok (record config { allow_insecure_tls = allow })

  unfoldable pub apply_env_overrides : (Text → Option Text) → Config fl → Result Error (Config fl)
  apply_env_overrides get_env config = do
    c1 ← when_set (get_env (key "SERVER_URL")) (λ v c. ok (record c { server_url = v })) config
    c2 ← when_set (get_env (key "MACHINE_ID")) (λ v c. ok (record c { machine_id = v })) c1
    c3 ← when_set (get_env (key "HEARTBEAT_INTERVAL")) override_heartbeat c2
    c4 ← when_set (get_env (key "SYNC_INTERVAL")) override_sync c3
    c5 ←
        when_set (get_env (key "TRUSTED_CA_PATH")) (λ v c. ok (record c { trusted_ca_path = v })) c4
    c6 ←
        when_set (get_env (key "SSHD_CONFIG_PATH")) (λ v c. ok (record c { sshd_config_path = v }))
          c5
    c7 ← when_set (get_env (key "STATE_DIR")) (λ v c. ok (record c { state_dir = v })) c6
    c8 ← when_set (get_env (key "IDENTITY_DIR")) (λ v c. ok (record c { identity_dir = v })) c7
    c9 ←
        when_set (get_env (key "HELPER_SOCKET_PATH"))
          (λ v c. ok (record c { helper_socket_path = v })) c8
    c10 ←
        when_set (get_env (key "HELPER_TOKEN_PATH"))
          (λ v c. ok (record c { helper_token_path = v })) c9
    c11 ←
        when_set (get_env (key "BUNDLE_SIGNING_PUBLIC_KEY"))
          (λ v c. ok (record c { bundle_signing_public_key = trimmed_or_none v })) c10
    c12 ← when_set (get_env (key "POLL_JITTER_RATIO")) override_jitter c11
    c13 ← when_set (get_env (key "LOG_LEVEL")) override_level c12
    c14 ← when_set (get_env (key "LOG_FORMAT")) override_format c13
    c15 ← when_set (get_env (key "ALLOW_INSECURE_TLS")) override_insecure c14
    when_set (get_env (key "TLS_CA_PATH"))
        (λ v c. ok (record c { tls_ca_path = trimmed_or_none v })) c15

  -- `toml::from_str` is given; it reads the file's text.
  unfoldable pub from_toml_with_env :
      Crates
      → (Text → Option (TomlConfig fl))
      → Text
      → (Text → Option Text)
      → Result Error (Config fl)
  from_toml_with_env lib from_str toml_str get_env = do
    toml ← ok_or config_parse (from_str toml_str)
    config ← apply_env_overrides get_env (with_defaults fl toml)
    validate fl lib config
    ok config

  -- `load`, of what reading the file gave and of the environment of the process.
  unfoldable pub load_config :
      Crates
      → (Text → Option (TomlConfig fl))
      → Result Error Text
      → (Text → Option Text)
      → Result Error (Config fl)
  load_config lib from_str contents get_env = do
    raw ← map_err (λ _. config_read) contents
    from_toml_with_env lib from_str raw get_env
