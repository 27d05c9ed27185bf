-- ===== src/Protocol/Signing.antt =====
-- src/protocol/signing.rs: the canonical string of a request and its signature.
pub mod Canonical
use mayfly_agent.Result.{ok, map_err, ◌>>=◌, ◌>>◌, Result}
use mayfly_agent.Text.Utf8.{as_bytes}
use mayfly_agent.Identity.Keypair.{sign, MachineKeypair}
use mayfly_agent.Errors.{request_signing, Error}
use mayfly_agent.Crates.{nanos_per_sec, Crates, Instant}
use mayfly_agent.Text.Integer.{difference, print_int, ℤ}
use mayfly_agent.Prelude.{ℕ, ◌/◌, List, [], ◌∷◌, ◌++◌}
use mayfly_agent.Text.Chars.{Text, Bytes, codes}

abbrev pub signing_domain : Text
signing_domain = codes "mayfly-agent-auth-v1"

abbrev pub header_machine_id : Text
header_machine_id = codes "X-Mayfly-Machine-Id"

abbrev pub header_timestamp : Text
header_timestamp = codes "X-Mayfly-Timestamp"

abbrev pub header_nonce : Text
header_nonce = codes "X-Mayfly-Nonce"

abbrev pub header_signature : Text
header_signature = codes "X-Mayfly-Signature"

abbrev pub nonce_bytes : ℕ
nonce_bytes = 16

-- Of what the random source fills a buffer of this size with.
unfoldable pub generate_nonce : Crates → (ℕ → Bytes) → Text
generate_nonce lib fill = lib.hex_encode (fill nonce_bytes)

unfoldable pub body_sha256_hex : Crates → Bytes → Text
body_sha256_hex lib body = lib.hex_encode (lib.sha256 body)

unfoldable pub canonical_string : Text → ℤ → Text → Text → Text → Text → Text
canonical_string machine_id timestamp nonce method path body_hash_hex =
    signing_domain
    ++ (10
        ∷ (machine_id
            ++ (10
                ∷ (print_int timestamp
                    ++ (10
                        ∷ (nonce ++ (10 ∷ (method ++ (10 ∷ (path ++ (10 ∷ body_hash_hex)))))))))))

pub record SignedHeaders : Type 0 where
  pub machine_id : Text
  pub timestamp : ℤ
  pub nonce : Text
  pub signature : Text

unfoldable pub sign_request :
    Crates → MachineKeypair → Text → ℤ → Text → Text → Text → Bytes → Result Error SignedHeaders
sign_request lib keypair machine_id timestamp nonce method path body = do
  let body_hash = body_sha256_hex lib body
  let canonical = canonical_string machine_id timestamp nonce method path body_hash
  signature ← map_err (λ _. request_signing) (sign lib keypair (as_bytes canonical))
  ok (record {
    machine_id = machine_id;
    timestamp = timestamp;
    nonce = nonce;
    signature = lib.base64_encode signature;
  })

-- The four headers of a signed request.
unfoldable pub signing_headers : SignedHeaders → List (Text × Text)
signing_headers signed =
    (header_machine_id, signed.machine_id)
    ∷ (header_timestamp, print_int signed.timestamp)
    ∷ (header_nonce, signed.nonce)
    ∷ (header_signature, signed.signature)
    ∷ []

-- The whole seconds from 1970-01-01T00:00:00Z, rounded down: that day is 377705116800 s after the
-- first instant.
abbrev pub unix_epoch_secs : ℕ
unix_epoch_secs = 377_705_116_800

unfoldable pub unix_timestamp : Instant → ℤ
unix_timestamp now = difference (now / nanos_per_sec) unix_epoch_secs
