-- ===== src/Crates.antt =====
-- What the agent calls in third-party crates (`ssh_key`, `ed25519_dalek`, `base64`, `sha2`, `hex`,
-- `time`), as a parameter of the model: every definition that uses it takes a value of `Crates`.
use mayfly_agent.Prelude.{ℕ, Bool, Option}
use mayfly_agent.Text.Chars.{Text, Bytes}

-- What the agent reads of a parsed `ssh_key::PublicKey`: whether `algorithm()` is Ed25519, and
-- `key_data().ed25519()`.
pub record SshPublicKey : Type 0 where
  pub is_ed25519 : Bool
  pub ed25519 : Option Bytes

-- An instant (`time::OffsetDateTime`) is the number of nanoseconds since the first one that the
-- type has, -9999-01-01T00:00:00Z.
abbrev pub Instant : Type 0
Instant = ℕ

abbrev pub nanos_per_sec : ℕ
nanos_per_sec = 1_000_000_000

pub record Crates : Type 0 where
  -- `ssh_key::PublicKey::from_openssh`
  pub from_openssh : Text → Option SshPublicKey
  -- `VerifyingKey::from_bytes`; a verifying key is its bytes
  pub verifying_key : Bytes → Option Bytes
  -- `VerifyingKey::verify_strict`, of a key, a message and a signature
  pub verify_strict : Bytes → Bytes → Bytes → Bool
  -- `SigningKey::from_bytes` of a seed, and `sign` of a message
  pub ed25519_sign : Bytes → Bytes → Bytes
  -- `BASE64.decode` and `BASE64.encode`
  pub base64_decode : Text → Option Bytes
  pub base64_encode : Bytes → Text
  -- SHA-256 and `hex::encode`
  pub sha256 : Bytes → Bytes
  pub hex_encode : Bytes → Text
  -- `OffsetDateTime::parse` and `format` with `Rfc3339`
  pub parse_rfc3339 : Text → Option Instant
  pub format_rfc3339 : Instant → Option Text
