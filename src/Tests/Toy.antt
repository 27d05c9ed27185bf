-- ===== src/Tests/Toy.antt =====
-- A concrete instance of the third-party operations, small enough to compute with: a key is what
-- stands in its line, and every signature of a non-empty payload verifies.
use mayfly_agent.Bundle.Canonical.{
  json_escape, keys_array, key_object, keys_from, insert_key, escape_char, hex_digit,
  canonical_signing_payload, sort_keys, canonical_json, compute_fingerprint,
}
use mayfly_agent.Text.Trim.{trim, trim_start, trim_end}
use mayfly_agent.Text.Chars.{
  is_control, is_whitespace, text_eq, byte_len, is_ascii_alphanumeric, is_ascii_graphic, text_le,
  Text, codes, text_eq_iff,
}
use mayfly_agent.Bundle.Validate.{
  material, insert_text, public_keys_equal, sort_texts, fingerprints_equal, has_equal_neighbours,
  verify_signature, validate_key_id, validate_keys, validate_window, validate_content, authenticate,
  from_response,
}
use mayfly_agent.Ssh.TrustedCa.{trailing_padding, check_bytes, is_base64_char, is_valid_base64}
use mayfly_agent.Text.Utf8.{as_bytes}
use mayfly_agent.Result.{ok}
use mayfly_agent.ConstantTime.{constant_time_eq}
use mayfly_agent.Identity.Keypair.{validate_ed25519_public_key}
use mayfly_agent.Bundle.Render.{blob_of, algorithm_of}
use mayfly_agent.Bundle.Accepted.{PrintsHex}
use mayfly_agent.Text.Words.{split_whitespace}
use mayfly_agent.Bundle.Types.{CaBundleKey, CaBundle, CaBundleResponse}
use mayfly_agent.Bundle.Render.KeyLine.{ReadsOpensshLines}
use mayfly_agent.Text.Decimal.{decimal}
use mayfly_agent.Crates.{Instant, Crates, SshPublicKey, nanos_per_sec}
use mayfly_agent.Prelude.{
  ◌*◌, ◌≡◌, refl, true, ◌&&◌, Option, none, some, [], ◌∷◌, arith, ltb, if◌then◌else◌, length,
}

abbrev pub toy_from_openssh : Text → Option SshPublicKey
toy_from_openssh s =
    let fields = split_whitespace s in
    if text_eq (algorithm_of fields) (codes "ssh-ed25519") && is_valid_base64 (blob_of fields)
    then some (record { is_ed25519 = true; ed25519 = some (blob_of fields) })
    else none

abbrev pub toy : Crates
toy = record {
  from_openssh = toy_from_openssh;
  verifying_key = λ b. some b;
  verify_strict = λ key payload sig. ltb 0 (length payload);
  ed25519_sign = λ seed message. seed;
  base64_decode = λ s. some s;
  base64_encode = λ b. b;
  sha256 = λ b. b;
  hex_encode = λ b. codes "ab";
  parse_rfc3339 = λ s. some (length s * nanos_per_sec);
  format_rfc3339 = λ t. some (decimal t);
}

pub toy-PrintsHex : PrintsHex toy
toy-PrintsHex bytes = refl

pub toy-ReadsOpensshLines : ReadsOpensshLines toy
toy-ReadsOpensshLines s key read is =
    ground (arith, text_eq_iff (algorithm_of (split_whitespace s)) (codes "ssh-ed25519"))

abbrev pub signature_64 : Text
signature_64 = codes "AAAAAAAAAAAAAAAAAAAAAAAAAAAAAAAAAAAAAAAAAAAAAAAAAAAAAAAAAAAAAAAA"

abbrev pub key_a : CaBundleKey
key_a = record { key_id = codes "a"; public_key = codes "ssh-ed25519 AAAA" }

abbrev pub key_b : CaBundleKey
key_b = record { key_id = codes "b"; public_key = codes "ssh-ed25519 BBBB note" }

abbrev pub signing_line : Text
signing_line = codes "ssh-ed25519 CCCC"

-- A response with its keys out of order.
abbrev pub response : CaBundleResponse
response = record {
  bundle_version = some 1;
  generation = some 3;
  fingerprint = some (codes "sha256:ab");
  created_at = some (codes "now");
  expires_at = some (codes "much later");
  keys = key_b ∷ key_a ∷ [];
  signature_algorithm = some (codes "ssh-ed25519");
  signature = some signature_64;
  bundle_signing_public_key = some signing_line;
}

-- What `from_response` makes of it.
abbrev pub bundle_of_response : CaBundle
bundle_of_response = record {
  bundle_version = 1;
  generation = 3;
  fingerprint = codes "sha256:ab";
  created_at = 3 * nanos_per_sec;
  expires_at = 10 * nanos_per_sec;
  keys = key_a ∷ key_b ∷ [];
  signing_public_key = signing_line;
}

abbrev pub five_seconds : Instant
five_seconds = 5 * nanos_per_sec

pub response_accepted :
    from_response toy response five_seconds (some signing_line) ≡ ok bundle_of_response
unfolding from_response authenticate validate_content validate_window validate_keys validate_key_id
    validate_ed25519_public_key verify_signature compute_fingerprint canonical_json sort_keys
    has_equal_neighbours sort_texts fingerprints_equal constant_time_eq public_keys_equal
    canonical_signing_payload text_eq trim is_whitespace is_control algorithm_of split_whitespace
    is_valid_base64 blob_of as_bytes is_base64_char is_ascii_alphanumeric decimal json_escape
    escape_char keys_array keys_from insert_key hex_digit key_object insert_text material
    check_bytes trailing_padding byte_len is_ascii_graphic text_le trim_end trim_start
response_accepted = refl
