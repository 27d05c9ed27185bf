-- ===== src/Bundle/Validate.antt =====
-- src/protocol/ca_bundle.rs: `CaBundle::from_response` and its checks, in the order of the source.
pub mod Content
pub mod Sound
use mayfly_agent.Prelude.{
  ℕ, ◌-◌, Bool, false, not, ◌&&◌, ◌||◌, Option, none, some, List, [], ◌∷◌, map, ltb, leb, ◌==◌,
  if◌then◌else◌, length, is_empty, any,
}
use mayfly_agent.Text.Chars.{
  Text, Bytes, text_eq, text_le, byte_len, is_whitespace, is_control, is_ascii_graphic,
}
use mayfly_agent.Text.Trim.{trim}
use mayfly_agent.Text.Words.{split_whitespace}
use mayfly_agent.Text.Utf8.{as_bytes}
use mayfly_agent.Result.{Result, ok, ◌>>=◌, ◌>>◌, reject_if, ok_or, map_err, is_ok}
use mayfly_agent.Errors.{
  CaBundleError, unsupported_version, unsupported_signature_algorithm, signature_invalid,
  signing_key_mismatch, missing_fingerprint, missing_generation, too_many_keys, invalid_key,
  duplicate_key_id, duplicate_public_key, fingerprint_mismatch, invalid_timestamp, expired,
  not_yet_valid,
}
use mayfly_agent.Crates.{Crates, Instant}
use mayfly_agent.ConstantTime.{constant_time_eq}
use mayfly_agent.Identity.Keypair.{validate_ed25519_public_key}
use mayfly_agent.Bundle.Types.{
  CaBundleKey, CaBundleResponse, CaBundle, supported_bundle_version, signature_algorithm,
  clock_skew_grace, min_keys, max_keys, max_key_id_len,
}
use mayfly_agent.Bundle.Canonical.{sort_keys, canonical_signing_payload, compute_fingerprint}

abbrev pub unwrap_or_default : Option Text → Text
unwrap_or_default none = []
unwrap_or_default (some s) = s

abbrev pub unwrap_or_zero : Option ℕ → ℕ
unwrap_or_zero none = 0
unwrap_or_zero (some n) = n

unfoldable pub verify_signature : Crates → Bytes → Text → Text → Result CaBundleError (Unit {0})
verify_signature lib payload signature_b64 signing_key_openssh = do
  key ← ok_or signature_invalid (lib.from_openssh signing_key_openssh)
  ed ← ok_or signature_invalid key.ed25519
  verifying_key ← ok_or signature_invalid (lib.verifying_key ed)
  sig_bytes ← ok_or signature_invalid (lib.base64_decode (trim signature_b64))
  reject_if (not (length sig_bytes == 64)) signature_invalid
  reject_if (not (lib.verify_strict verifying_key payload sig_bytes)) signature_invalid
  ok tt

unfoldable pub validate_key_id : Text → Result CaBundleError (Unit {0})
validate_key_id key_id = do
  reject_if (is_empty key_id || ltb max_key_id_len (byte_len key_id)) invalid_key
  reject_if (any (λ c. is_whitespace c || is_control c || not (is_ascii_graphic c)) key_id)
      invalid_key
  ok tt

-- The loop over the keys: the first invalid one ends it.
unfoldable pub validate_keys : Crates → List CaBundleKey → Result CaBundleError (Unit {0})
validate_keys lib [] = ok tt
validate_keys lib (key ∷ keys) =
    let later = validate_keys lib keys in
    do
      validate_key_id key.key_id
      map_err (λ _. invalid_key) (validate_ed25519_public_key lib key.public_key)
      later

-- `windows(2)` with an equal pair, over texts.
unfoldable pub has_equal_neighbours : List Text → Bool
has_equal_neighbours [] = false
has_equal_neighbours (a ∷ []) = false
has_equal_neighbours (a ∷ b ∷ rest) = text_eq a b || has_equal_neighbours (b ∷ rest)

-- `sort_unstable` on texts: equal texts cannot be told apart.
unfoldable pub insert_text : Text → List Text → List Text
insert_text s [] = s ∷ []
insert_text s (t ∷ ts) =
    let later = t ∷ insert_text s ts in if text_le s t then s ∷ t ∷ ts else later

unfoldable pub sort_texts : List Text → List Text
unfolding insert_text
sort_texts [] = []
sort_texts (s ∷ ss) = insert_text s (sort_texts ss)

unfoldable pub fingerprints_equal : Text → Text → Bool
fingerprints_equal a b = constant_time_eq (as_bytes a) (as_bytes b)

-- The algorithm and the blob of a key line.
unfoldable pub material : List Text → Option (Text × Text)
material [] = none
material (algo ∷ []) = none
material (algo ∷ blob ∷ more) = some (algo, blob)

abbrev pub same_material : Option (Text × Text) → Option (Text × Text) → Bool
same_material (some (a, b)) (some (c, d)) = text_eq a c && text_eq b d
same_material none _ = false
same_material (some _) none = false

unfoldable pub public_keys_equal : Text → Text → Bool
unfolding material
public_keys_equal a b =
    same_material (material (split_whitespace a)) (material (split_whitespace b))

abbrev pub pin_differs : Option Text → Text → Bool
pin_differs none signing_key = false
pin_differs (some expected) signing_key = not (public_keys_equal expected signing_key)

-- Version, algorithm, signing key, pin and signature: nothing of the content is trusted before.
unfoldable pub authenticate :
    Crates → CaBundleResponse → Option Text → ℕ → Result CaBundleError (Unit {0})
authenticate lib raw expected_signing_key bundle_version = do
  let generation = unwrap_or_zero raw.generation
  let fingerprint = unwrap_or_default raw.fingerprint
  let signing_key = unwrap_or_default raw.bundle_signing_public_key
  reject_if (not (bundle_version == supported_bundle_version)) unsupported_version
  reject_if (not (text_eq (unwrap_or_default raw.signature_algorithm) signature_algorithm))
      unsupported_signature_algorithm
  reject_if
      (is_empty (trim signing_key) || not (is_ok (validate_ed25519_public_key lib signing_key)))
      signature_invalid
  reject_if (pin_differs expected_signing_key signing_key) signing_key_mismatch
  reject_if (is_empty (trim fingerprint)) missing_fingerprint
  verify_signature lib
      (as_bytes (
        canonical_signing_payload bundle_version generation fingerprint
          (unwrap_or_default raw.created_at) (unwrap_or_default raw.expires_at) raw.keys))
      (unwrap_or_default raw.signature) signing_key

-- Generation, keys and fingerprint.
unfoldable pub validate_content : Crates → CaBundleResponse → Result CaBundleError (Unit {0})
validate_content lib raw = do
  let generation = unwrap_or_zero raw.generation
  reject_if (generation == 0) missing_generation
  reject_if (ltb (length raw.keys) min_keys) CaBundleError.empty
  reject_if (ltb max_keys (length raw.keys)) too_many_keys
  validate_keys lib raw.keys
  reject_if (has_equal_neighbours (map (λ (k : CaBundleKey). k.key_id) (sort_keys raw.keys)))
      duplicate_key_id
  reject_if (has_equal_neighbours (sort_texts (map (λ (k : CaBundleKey). k.public_key) raw.keys)))
      duplicate_public_key
  reject_if
      (not (
        fingerprints_equal (compute_fingerprint lib generation (sort_keys raw.keys))
          (unwrap_or_default raw.fingerprint)))
      fingerprint_mismatch
  ok tt

-- The validity window, against the current time. `created_at - now` is only compared with a
-- positive duration, so the difference may stop at 0.
unfoldable pub validate_window :
    Crates → CaBundleResponse → Instant → Result CaBundleError (Instant × Instant)
validate_window lib raw now = do
  created_at ← ok_or invalid_timestamp (lib.parse_rfc3339 (unwrap_or_default raw.created_at))
  expires_at ← ok_or invalid_timestamp (lib.parse_rfc3339 (unwrap_or_default raw.expires_at))
  reject_if (leb expires_at created_at) invalid_timestamp
  reject_if (leb expires_at now) expired
  reject_if (ltb clock_skew_grace (created_at - now)) not_yet_valid
  ok (created_at, expires_at)

unfoldable pub from_response :
    Crates → CaBundleResponse → Instant → Option Text → Result CaBundleError CaBundle
from_response lib raw now expected_signing_key = do
  bundle_version ← ok_or unsupported_version raw.bundle_version
  authenticate lib raw expected_signing_key bundle_version
  validate_content lib raw
  window ← validate_window lib raw now
  ok (record {
    bundle_version = bundle_version;
    generation = unwrap_or_zero raw.generation;
    fingerprint = compute_fingerprint lib (unwrap_or_zero raw.generation) (sort_keys raw.keys);
    created_at = window.0;
    expires_at = window.1;
    keys = sort_keys raw.keys;
    signing_public_key = unwrap_or_default raw.bundle_signing_public_key;
  })
