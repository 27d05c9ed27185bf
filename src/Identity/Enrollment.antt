-- ===== src/Identity/Enrollment.antt =====
-- src/identity/enrollment.rs: the data of the enrollment exchange and the checks of it.
-- Enrollment/Service holds the service.
pub mod Token
pub mod Requests
pub mod Service
use mayfly_agent.Errors.{
  invalid_server_identity, interval_out_of_range, invalid_machine_id, invalid_token,
  invalid_server_url, invalid_bundle_signing_key, invalid_hostname, empty_machine_id,
  invalid_server_response, Error,
}
use mayfly_agent.Text.Chars.{
  strip_prefix, ends_with_code, starts_with_code, is_control, byte_len, text_eq, codes,
  is_ascii_alphanumeric, Text,
}
use mayfly_agent.Result.{ok_or, map_err, reject_if, ok, ◌>>=◌, ◌>>◌, Result}
use mayfly_agent.Text.Lines.{split}
use mayfly_agent.Identity.Keypair.{validate_ed25519_public_key}
use mayfly_agent.Text.Trim.{trim}
use mayfly_agent.Crates.{Crates}
use mayfly_agent.Prelude.{
  ℕ, Bool, false, not, ◌&&◌, ◌||◌, Option, none, some, List, [], ◌∷◌, ltb, leb, ◌==◌, is_empty, any,
  all,
}

abbrev pub token_prefix : Text
token_prefix = codes "mf_enroll_"

abbrev pub private_key_file : Text
private_key_file = codes "machine_ed25519"

abbrev pub public_key_file : Text
public_key_file = codes "machine_ed25519.pub"

abbrev pub machine_record_file : Text
machine_record_file = codes "machine.json"

abbrev pub max_token_len : ℕ
max_token_len = 256

abbrev pub max_hostname_len : ℕ
max_hostname_len = 253

abbrev pub max_label_len : ℕ
max_label_len = 63

abbrev pub max_machine_id_len : ℕ
max_machine_id_len = 128

abbrev pub min_interval_secs : ℕ
min_interval_secs = 1

abbrev pub max_interval_secs : ℕ
max_interval_secs = 86_400

pub record EnrollmentRequest : Type 0 where
  pub enrollment_token : Text
  pub hostname : Text
  pub os : Text
  pub arch : Text
  pub agent_version : Text
  pub public_key : Text

pub record EnrollmentResponse : Type 0 where
  pub machine_id : Text
  pub heartbeat_interval : ℕ
  pub sync_interval : ℕ
  pub server_identity : Text
  pub bundle_signing_key : Option Text

abbrev pub is_token_char : ℕ → Bool
is_token_char c = is_ascii_alphanumeric c || c == b'_'

unfoldable pub validate_token : Text → Result Error (Unit {0})
validate_token token = do
  reject_if (ltb max_token_len (byte_len token) || any is_control token) invalid_token
  suffix ← ok_or invalid_token (strip_prefix token_prefix token)
  reject_if (is_empty suffix || not (all is_token_char suffix)) invalid_token
  ok tt

abbrev pub is_label_char : ℕ → Bool
is_label_char c = is_ascii_alphanumeric c || c == b'-'

unfoldable pub validate_label : Text → Result Error (Unit {0})
validate_label label = do
  reject_if (is_empty label || ltb max_label_len (byte_len label)) invalid_hostname
  reject_if (starts_with_code b'-' label || ends_with_code b'-' label) invalid_hostname
  reject_if (not (all is_label_char label)) invalid_hostname
  ok tt

abbrev pub validate_labels : List Text → Result Error (Unit {0})
validate_labels [] = ok tt
validate_labels (label ∷ labels) = validate_label label >> validate_labels labels

unfoldable pub validate_hostname : Text → Result Error (Unit {0})
validate_hostname hostname = do
  reject_if (is_empty hostname || ltb max_hostname_len (byte_len hostname)) invalid_hostname
  validate_labels (split b'.' hostname)

abbrev pub has_host : Option Text → Bool
has_host none = false
has_host (some host) = not (is_empty host)

unfoldable pub validate_server_url : Text → Result Error (Unit {0})
validate_server_url url = do
  reject_if (not (text_eq url (trim url))) invalid_server_url
  reject_if (not (has_host (strip_prefix (codes "https://") url))) invalid_server_url
  ok tt

abbrev pub is_machine_id_char : ℕ → Bool
is_machine_id_char c = is_ascii_alphanumeric c || c == b'-' || c == b'_' || c == b'.'

unfoldable pub is_valid_interval : ℕ → Bool
is_valid_interval secs = leb min_interval_secs secs && leb secs max_interval_secs

abbrev pub validate_optional_key : Crates → Option Text → Result Error (Unit {0})
validate_optional_key lib none = ok tt
validate_optional_key lib (some key) =
    map_err (λ _. invalid_server_response invalid_bundle_signing_key)
      (validate_ed25519_public_key lib key)

unfoldable pub validate_response : Crates → EnrollmentResponse → Result Error (Unit {0})
validate_response lib response = do
  reject_if (is_empty response.machine_id) (invalid_server_response empty_machine_id)
  reject_if
      (ltb max_machine_id_len (byte_len response.machine_id)
        || not (all is_machine_id_char response.machine_id))
      (invalid_server_response invalid_machine_id)
  reject_if
      (not (is_valid_interval response.heartbeat_interval)
        || not (is_valid_interval response.sync_interval))
      (invalid_server_response interval_out_of_range)
  map_err (λ _. invalid_server_response invalid_server_identity)
      (validate_ed25519_public_key lib response.server_identity)
  validate_optional_key lib response.bundle_signing_key
