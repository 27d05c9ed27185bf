-- ===== src/Identity/Keypair.antt =====
-- src/identity/keypair.rs: the key pair, its conversions, signing, and the test of an Ed25519 public
-- key line.
use mayfly_agent.Errors.{key_serialize, key_generation, key_parse, Error, malformed_public_key}
use mayfly_agent.Text.Chars.{Bytes, Text, is_control}
use mayfly_agent.Prelude.{Bool, not, Option, any}
use mayfly_agent.Result.{Result, ok, ◌>>=◌, ◌>>◌, reject_if, ok_or}
use mayfly_agent.Crates.{Crates}

unfoldable pub validate_ed25519_public_key : Crates → Text → Result Error (Unit {0})
validate_ed25519_public_key lib value = do
  reject_if (any is_control value) malformed_public_key
  key ← ok_or malformed_public_key (lib.from_openssh value)
  reject_if (not key.is_ed25519) malformed_public_key
  ok tt

-- The seed of the private key, if it is an Ed25519 key.
pub record MachineKeypair : Type 0 where
  pub seed : Option Bytes

unfoldable pub sign : Crates → MachineKeypair → Bytes → Result Error Bytes
sign lib keypair message = do
  seed ← ok_or key_parse keypair.seed
  ok (lib.ed25519_sign seed message)

-- What `PrivateKey::from_openssh` reads: the key, and whether `algorithm()` is Ed25519.
pub record ParsedKey : Type 0 where
  pub is_ed25519 : Bool
  pub keypair : MachineKeypair

-- `ssh_key::PrivateKey`: a random Ed25519 key, and the two OpenSSH forms.
pub record PrivateKeys : Type 0 where
  pub random : Option MachineKeypair
  pub from_openssh : Text → Option ParsedKey
  pub to_openssh : MachineKeypair → Option Text
  pub public_line : MachineKeypair → Option Text

unfoldable pub generate : PrivateKeys → Result Error MachineKeypair
generate keys = ok_or key_generation keys.random

unfoldable pub from_openssh_private : PrivateKeys → Text → Result Error MachineKeypair
from_openssh_private keys pem = do
  key ← ok_or key_parse (keys.from_openssh pem)
  reject_if (not key.is_ed25519) key_parse
  ok key.keypair

unfoldable pub public_key_openssh : PrivateKeys → MachineKeypair → Result Error Text
public_key_openssh keys keypair = ok_or key_serialize (keys.public_line keypair)

unfoldable pub to_openssh_private : PrivateKeys → MachineKeypair → Result Error Text
to_openssh_private keys keypair = ok_or key_serialize (keys.to_openssh keypair)
