-- ===== src/Errors.antt =====
-- src/errors.rs: the error type of the crate and the texts that `Display` prints. A foreign error
-- that a variant carries as its `#[source]` is not printed, and is left out.
use mayfly_agent.Prelude.{String, ◌++◌}
use mayfly_agent.Text.Chars.{Text, codes}

pub data ServerResponseError : Type 0 where
  empty_machine_id invalid_machine_id interval_out_of_range invalid_server_identity
        invalid_bundle_signing_key :
      ServerResponseError

pub data TrustedCaError : Type 0 where
  empty malformed disallowed_algorithm invalid_encoding illegal_character : TrustedCaError

pub data CaBundleError : Type 0 where
  empty too_many_keys duplicate_key_id duplicate_public_key invalid_key missing_generation
        missing_fingerprint fingerprint_mismatch unsupported_version unsupported_signature_algorithm
        invalid_timestamp expired not_yet_valid signature_invalid signing_key_mismatch
        generation_regressed :
      CaBundleError

pub data Error : Type 0 where
  config_read config_parse io unexpected_symlink insecure_ownership insecure_permissions
        invalid_path not_root already_enrolled key_already_exists key_generation key_parse
        key_serialize invalid_hostname invalid_token invalid_server_url malformed_public_key
        enrollment_rejected enrollment_transport request_signing heartbeat_transport
        heartbeat_rejected invalid_heartbeat_response ca_bundle_transport ca_bundle_rejected
        ca_reload_failed machine_record_parse machine_record_serialize machine_record_invalid
        helper_unavailable helper_protocol helper_unauthenticated helper_operation_failed :
      Error
  config_invalid : Text → Error
  invalid_trusted_ca : TrustedCaError → Error
  invalid_server_response : ServerResponseError → Error
  invalid_ca_bundle : CaBundleError → Error

display_server_response : ServerResponseError → String
display_server_response empty_machine_id = "machine_id is empty"
display_server_response invalid_machine_id = "machine_id is invalid"
display_server_response interval_out_of_range = "interval is out of range"
display_server_response invalid_server_identity = "server_identity is not a valid key"
display_server_response invalid_bundle_signing_key = "bundle_signing_key is not a valid key"

display_trusted_ca : TrustedCaError → String
display_trusted_ca empty = "entry is empty"
display_trusted_ca malformed = "entry is malformed"
display_trusted_ca disallowed_algorithm = "key algorithm is not allowed"
display_trusted_ca invalid_encoding = "key data is not valid base64"
display_trusted_ca illegal_character = "entry contains illegal characters"

display_ca_bundle : CaBundleError → String
display_ca_bundle empty = "bundle contains no keys"
display_ca_bundle too_many_keys = "bundle contains too many keys"
display_ca_bundle duplicate_key_id = "bundle contains a duplicate key id"
display_ca_bundle duplicate_public_key = "bundle contains a duplicate public key"
display_ca_bundle invalid_key = "bundle contains an invalid key"
display_ca_bundle missing_generation = "bundle generation is missing or invalid"
display_ca_bundle missing_fingerprint = "bundle fingerprint is missing"
display_ca_bundle fingerprint_mismatch = "bundle fingerprint does not match its contents"
display_ca_bundle unsupported_version = "bundle version is not supported"
display_ca_bundle unsupported_signature_algorithm = "bundle signature algorithm is not supported"
display_ca_bundle invalid_timestamp = "bundle timestamp is missing or invalid"
display_ca_bundle expired = "bundle has expired"
display_ca_bundle not_yet_valid = "bundle is not valid yet"
display_ca_bundle signature_invalid = "bundle signature failed verification"
display_ca_bundle signing_key_mismatch = "bundle signing key does not match the pinned key"
display_ca_bundle generation_regressed = "bundle generation is older than the applied generation"

unfoldable pub display : Error → Text
unfolding display_server_response display_trusted_ca display_ca_bundle
display config_read = codes "failed to read configuration"
display config_parse = codes "failed to parse configuration"
display (config_invalid reason) = codes "invalid configuration: " ++ reason
display io = codes "filesystem operation failed"
display unexpected_symlink = codes "path failed security validation: unexpected symlink"
display insecure_ownership = codes "path failed security validation: insecure ownership"
display insecure_permissions = codes "path failed security validation: insecure permissions"
display invalid_path = codes "path failed security validation: invalid path"
display not_root = codes "insufficient privileges: root is required"
display (invalid_trusted_ca e) =
    codes "invalid TrustedUserCAKeys entry: " ++ codes (display_trusted_ca e)
display already_enrolled = codes "machine is already enrolled"
display key_already_exists = codes "machine identity key already exists"
display key_generation = codes "failed to generate machine identity key"
display key_parse = codes "failed to parse machine identity key"
display key_serialize = codes "failed to serialise machine identity key"
display invalid_hostname = codes "invalid hostname"
display invalid_token = codes "invalid enrollment token"
display invalid_server_url = codes "invalid server URL"
display malformed_public_key = codes "malformed public key"
display (invalid_server_response e) =
    codes "untrusted server response: " ++ codes (display_server_response e)
display enrollment_rejected = codes "enrollment was rejected by the server"
display enrollment_transport = codes "failed to communicate with the enrollment server"
display request_signing = codes "failed to sign request"
display heartbeat_transport = codes "failed to communicate with the server"
display heartbeat_rejected = codes "server rejected the request"
display invalid_heartbeat_response = codes "untrusted heartbeat response"
display ca_bundle_transport = codes "failed to communicate with the CA bundle server"
display ca_bundle_rejected = codes "server rejected the CA bundle request"
display (invalid_ca_bundle e) = codes "untrusted CA bundle: " ++ codes (display_ca_bundle e)
display ca_reload_failed =
    codes "helper could not apply the bundle; previous CA bundle was restored"
display machine_record_parse = codes "failed to parse machine record"
display machine_record_serialize = codes "failed to serialise machine record"
display machine_record_invalid = codes "machine record is invalid"
display helper_unavailable = codes "privileged helper is unavailable"
display helper_protocol = codes "helper protocol error"
display helper_unauthenticated = codes "helper rejected the request: unauthenticated"
display helper_operation_failed = codes "helper operation failed"
