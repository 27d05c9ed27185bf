-- ===== src/Bundle/Types.antt =====
-- src/protocol/ca_bundle.rs: the data of a bundle and its constants.
use mayfly_agent.Prelude.{ℕ, ◌*◌, Option, List}
use mayfly_agent.Text.Chars.{Text, codes}
use mayfly_agent.Crates.{Instant, nanos_per_sec}

abbrev pub ca_bundle_path : Text
ca_bundle_path = codes "/api/v1/agent/ca-bundle"

abbrev pub ca_bundle_ack_path : Text
ca_bundle_ack_path = codes "/api/v1/agent/ca-bundle/ack"

abbrev pub header_if_none_match : Text
header_if_none_match = codes "If-None-Match"

abbrev pub fingerprint_prefix : Text
fingerprint_prefix = codes "sha256:"

abbrev pub supported_bundle_version : ℕ
supported_bundle_version = 1

abbrev pub signature_algorithm : Text
signature_algorithm = codes "ssh-ed25519"

abbrev pub clock_skew_grace : ℕ
clock_skew_grace = 60 * nanos_per_sec

abbrev pub min_keys : ℕ
min_keys = 1

abbrev pub max_keys : ℕ
max_keys = 64

abbrev pub max_key_id_len : ℕ
max_key_id_len = 64

pub record CaBundleKey : Type 0 where
  pub key_id : Text
  pub public_key : Text

-- The response as it was deserialised: nothing in it is trusted.
pub record CaBundleResponse : Type 0 where
  pub bundle_version : Option ℕ
  pub generation : Option ℕ
  pub fingerprint : Option Text
  pub created_at : Option Text
  pub expires_at : Option Text
  pub keys : List CaBundleKey
  pub signature_algorithm : Option Text
  pub signature : Option Text
  pub bundle_signing_public_key : Option Text

pub record CaBundle : Type 0 where
  pub bundle_version : ℕ
  pub generation : ℕ
  pub fingerprint : Text
  pub created_at : Instant
  pub expires_at : Instant
  pub keys : List CaBundleKey
  pub signing_public_key : Text
