-- ===== src/Config/Valid.antt =====
-- What a configuration that passed validation satisfies.
pub mod Texts
use mayfly_agent.Config.Valid.Texts.{all_id_chars_iff, has_parent_dir_iff, IsIdChar, IsNotParent}
use mayfly_agent.Text.Lines.{split}
use mayfly_agent.Identity.Enrollment.{max_interval_secs, min_interval_secs, max_machine_id_len}
use mayfly_agent.Result.{err, map_err, Result, reject_if, both_ok, ok}
use mayfly_agent.Identity.Keypair.{validate_ed25519_public_key}
use mayfly_agent.Config.Validate.{
  validate_optional_path, validate_optional_signing_key, subsec_nanos, invalid, invalid_field,
  validate_jitter_ratio, validate_machine_id, validate_managed_path, validate_config_url,
  validate_interval, validate,
}
use mayfly_agent.Text.Trim.{trim}
use mayfly_agent.Errors.{Error}
use mayfly_agent.Text.Chars.{byte_len, starts_with_code, Text}
use mayfly_agent.Identity.Machine.{as_secs, from_secs}
use mayfly_agent.Config.{Config}
use mayfly_agent.Crates.{Crates}
use mayfly_agent.Float.{Floats}
use mayfly_agent.Prelude.{
  ℕ, ◌≤◌, String, ◌≡◌, refl, ◌↔◌, true, false, not, ◌||◌, Option, none, some, [], ◌∷◌, arith, ltb,
  ◌==◌, is_empty, all, All,
}

-- A whole number of seconds, from one to a day.
abbrev pub IsInterval : ℕ → Type 0
IsInterval value = (secs : ℕ) × (value ≡ from_secs secs) × (1 ≤ secs) × (secs ≤ 86_400)

interval-validates :
    (field : String) (value secs : ℕ)
    → value ≡ from_secs secs
    → 1 ≤ secs
    → secs ≤ 86_400
    → validate_interval field value ≡ ok tt
unfolding validate_interval
interval-validates field value secs e low high =
    let whole : (subsec_nanos value == 0) ≡ true = ground arith in
    let some_secs : ltb (as_secs value) min_interval_secs ≡ false = ground arith in
    let a_day : ltb max_interval_secs (as_secs value) ≡ false = ground arith in
    rw (whole, some_secs, a_day) refl

validate_interval_iff :
    (field : String) (value : ℕ) → (validate_interval field value ≡ ok tt) ↔ IsInterval value
unfolding validate_interval
validate_interval_iff field value = (
  λ h.
      let (_, h1) =
        both_ok
          (reject_if (not (subsec_nanos value == 0) || ltb (as_secs value) min_interval_secs)
            (invalid_field field " must be at least 1 second(s)"))
          _ h in
      (as_secs value, ground arith, ground arith, ground arith),
  λ (secs, e, low, high). interval-validates field value secs e low high,
)

-- An absolute path without `..` components.
abbrev pub IsManaged : Text → Type 0
IsManaged path = (starts_with_code b'/' path ≡ true) × All IsNotParent (split b'/' path)

starts-nonempty : (c : ℕ) (path : Text) → starts_with_code c path ≡ true → is_empty path ≡ false
unfolding starts_with_code
starts-nonempty c [] h = absurd (cc)
starts-nonempty c (x ∷ path) h = refl

validate_managed_path_iff :
    (field : String) (path : Text) → (validate_managed_path field path ≡ ok tt) ↔ IsManaged path
unfolding validate_managed_path
validate_managed_path_iff field path = (
  λ h.
      let (_, h1) =
        both_ok (reject_if (is_empty path) (invalid_field field " must not be empty")) _ h in
      (ground arith, (has_parent_dir_iff path).0 (ground arith)),
  λ (absolute, inside).
      rw (starts-nonempty b'/' path absolute, absolute, (has_parent_dir_iff path).1 inside) refl,
)

abbrev pub IsManagedIfSet : Option Text → Type 0
IsManagedIfSet none = Unit
IsManagedIfSet (some path) = IsManaged path

validate_optional_path_iff :
    (field : String) (path : Option Text)
    → (validate_optional_path field path ≡ ok tt) ↔ IsManagedIfSet path
validate_optional_path_iff field none = (λ h. tt, λ u. refl)
validate_optional_path_iff field (some path) = validate_managed_path_iff field path

abbrev pub IsSigningKeyIfSet : Crates → Option Text → Type 0
IsSigningKeyIfSet lib none = Unit
IsSigningKeyIfSet lib (some key) =
    (is_empty (trim key) ≡ false) × (validate_ed25519_public_key lib key ≡ ok tt)

mapped-ok : (e : Error) (r : Result Error (Unit {0})) → (map_err (λ _. e) r ≡ ok tt) ↔ (r ≡ ok tt)
mapped-ok e (ok u) = (λ h. refl, λ h. refl)
mapped-ok e (err f) = (λ h. absurd (cc), λ h. absurd (cc))

validate_optional_signing_key_iff :
    (lib : Crates) (key : Option Text)
    → (validate_optional_signing_key lib key ≡ ok tt) ↔ IsSigningKeyIfSet lib key
validate_optional_signing_key_iff lib none = (λ h. tt, λ u. refl)
validate_optional_signing_key_iff lib (some key) = (
  λ h.
      let (_, h1) =
        both_ok
          (reject_if (is_empty (trim key))
            (invalid "bundle_signing_public_key must not be empty when set"))
          _ h in
      (ground arith, (mapped-ok _ (validate_ed25519_public_key lib key)).0 h1),
  λ (set, valid). rw (set, valid) refl,
)

-- One to 128 bytes, of the characters that an id may have.
abbrev pub IsMachineId : Text → Type 0
IsMachineId machine_id =
    (is_empty machine_id ≡ false) × (byte_len machine_id ≤ 128) × All IsIdChar machine_id

validate_machine_id_iff :
    (machine_id : Text) → (validate_machine_id machine_id ≡ ok tt) ↔ IsMachineId machine_id
unfolding validate_machine_id
validate_machine_id_iff machine_id = (
  λ h.
      let (_, h1) =
        both_ok (reject_if (is_empty machine_id) (invalid "machine_id must not be empty")) _ h in
      let (_, h2) =
        both_ok
          (reject_if (ltb max_machine_id_len (byte_len machine_id))
            (invalid "machine_id is too long"))
          _ h1 in
      (ground arith, ground arith, (all_id_chars_iff machine_id).0 (ground arith)),
  λ (nonempty, short, chars).
      let fits : ltb max_machine_id_len (byte_len machine_id) ≡ false = ground arith in
      rw (nonempty, fits, (all_id_chars_iff machine_id).1 chars) refl,
)

abbrev pub IsRatio : (fl : Floats) → fl.F → Type 0
IsRatio fl ratio =
    (fl.is_finite ratio ≡ true) × (fl.le_f fl.zero_f ratio ≡ true) × (fl.le_f ratio fl.one_f ≡ true)

validate_jitter_ratio_iff :
    (fl : Floats) (ratio : fl.F) → (validate_jitter_ratio fl ratio ≡ ok tt) ↔ IsRatio fl ratio
unfolding validate_jitter_ratio
validate_jitter_ratio_iff fl ratio = (
  λ h. (ground arith, ground arith, ground arith),
  λ (finite, low, high). rw (finite, low, high) refl,
)

-- All that the validation asks of a configuration.
pub record IsValid (fl : Floats) (lib : Crates) (config : Config fl) : Type 0 where
  pub url : validate_config_url config.server_url config.allow_insecure_tls ≡ ok tt
  pub machine_id : IsMachineId config.machine_id
  pub heartbeat : IsInterval config.heartbeat_interval
  pub sync : IsInterval config.sync_interval
  pub trusted_ca_path : IsManaged config.trusted_ca_path
  pub sshd_config_path : IsManaged config.sshd_config_path
  pub state_dir : IsManaged config.state_dir
  pub identity_dir : IsManaged config.identity_dir
  pub helper_socket_path : IsManaged config.helper_socket_path
  pub helper_token_path : IsManaged config.helper_token_path
  pub ratio : IsRatio fl config.poll_jitter_ratio
  pub signing_key : IsSigningKeyIfSet lib config.bundle_signing_public_key
  pub tls_ca_path : IsManagedIfSet config.tls_ca_path

accepted-IsValid :
    (fl : Floats) (lib : Crates) (config : Config fl)
    → validate fl lib config ≡ ok tt
    → IsValid fl lib config
unfolding validate
accepted-IsValid fl lib config h =
    let ((_, url), h1) =
      both_ok (validate_config_url config.server_url config.allow_insecure_tls) _ h in
    let ((_, id), h2) = both_ok (validate_machine_id config.machine_id) _ h1 in
    let ((_, heartbeat), h3) =
      both_ok (validate_interval "heartbeat_interval" config.heartbeat_interval) _ h2 in
    let ((_, sync), h4) = both_ok (validate_interval "sync_interval" config.sync_interval) _ h3 in
    let ((_, trusted), h5) =
      both_ok (validate_managed_path "trusted_ca_path" config.trusted_ca_path) _ h4 in
    let ((_, sshd), h6) =
      both_ok (validate_managed_path "sshd_config_path" config.sshd_config_path) _ h5 in
    let ((_, state), h7) = both_ok (validate_managed_path "state_dir" config.state_dir) _ h6 in
    let ((_, identity), h8) =
      both_ok (validate_managed_path "identity_dir" config.identity_dir) _ h7 in
    let ((_, socket), h9) =
      both_ok (validate_managed_path "helper_socket_path" config.helper_socket_path) _ h8 in
    let ((_, token), h10) =
      both_ok (validate_managed_path "helper_token_path" config.helper_token_path) _ h9 in
    let ((_, ratio), h11) = both_ok (validate_jitter_ratio fl config.poll_jitter_ratio) _ h10 in
    let ((_, key), h12) =
      both_ok (validate_optional_signing_key lib config.bundle_signing_public_key) _ h11 in
    record {
      url = url;
      machine_id = (validate_machine_id_iff config.machine_id).0 id;
      heartbeat =
          (validate_interval_iff "heartbeat_interval" config.heartbeat_interval).0 heartbeat;
      sync = (validate_interval_iff "sync_interval" config.sync_interval).0 sync;
      trusted_ca_path =
          (validate_managed_path_iff "trusted_ca_path" config.trusted_ca_path).0 trusted;
      sshd_config_path =
          (validate_managed_path_iff "sshd_config_path" config.sshd_config_path).0 sshd;
      state_dir = (validate_managed_path_iff "state_dir" config.state_dir).0 state;
      identity_dir = (validate_managed_path_iff "identity_dir" config.identity_dir).0 identity;
      helper_socket_path =
          (validate_managed_path_iff "helper_socket_path" config.helper_socket_path).0 socket;
      helper_token_path =
          (validate_managed_path_iff "helper_token_path" config.helper_token_path).0 token;
      ratio = (validate_jitter_ratio_iff fl config.poll_jitter_ratio).0 ratio;
      signing_key = (validate_optional_signing_key_iff lib config.bundle_signing_public_key).0 key;
      tls_ca_path = (validate_optional_path_iff "tls_ca_path" config.tls_ca_path).0 h12;
    }

accepts-IsValid :
    (fl : Floats) (lib : Crates) (config : Config fl)
    → IsValid fl lib config
    → validate fl lib config ≡ ok tt
unfolding validate
accepts-IsValid fl lib config v =
    rw
      (
        v.url,
        (validate_machine_id_iff config.machine_id).1 v.machine_id,
        (validate_interval_iff "heartbeat_interval" config.heartbeat_interval).1 v.heartbeat,
        (validate_interval_iff "sync_interval" config.sync_interval).1 v.sync,
        (validate_managed_path_iff "trusted_ca_path" config.trusted_ca_path).1 v.trusted_ca_path,
        (validate_managed_path_iff "sshd_config_path" config.sshd_config_path).1 v.sshd_config_path,
        (validate_managed_path_iff "state_dir" config.state_dir).1 v.state_dir,
        (validate_managed_path_iff "identity_dir" config.identity_dir).1 v.identity_dir,
        (validate_managed_path_iff "helper_socket_path" config.helper_socket_path).1
            v.helper_socket_path,
        (validate_managed_path_iff "helper_token_path" config.helper_token_path).1
            v.helper_token_path,
        (validate_jitter_ratio_iff fl config.poll_jitter_ratio).1 v.ratio,
        (validate_optional_signing_key_iff lib config.bundle_signing_public_key).1 v.signing_key,
      )
      ((validate_optional_path_iff "tls_ca_path" config.tls_ca_path).1 v.tls_ca_path)

-- A configuration passes validation exactly where its URL passes the check of URLs, its machine id
-- has 1 to 128 bytes that are ASCII letters, digits, dashes, underscores or dots, both intervals
-- are one to 86,400 whole seconds, all six paths, and that of the TLS certificates if there is one,
-- are absolute and without `..`, the jitter ratio is finite and from zero to one, and the signing
-- key, if there is one, is a valid Ed25519 key.
pub validate-IsValid :
    (fl : Floats) (lib : Crates) (config : Config fl)
    → (validate fl lib config ≡ ok tt) ↔ IsValid fl lib config
validate-IsValid fl lib config = (accepted-IsValid fl lib config, accepts-IsValid fl lib config)
