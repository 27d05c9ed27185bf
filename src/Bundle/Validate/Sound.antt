-- ===== src/Bundle/Validate/Sound.antt =====
-- What an accepted bundle guarantees.
use mayfly_agent.Text.Chars.{text_eq_iff, Text, Bytes, text_eq}
use mayfly_agent.Prelude.{ℕ, ◌≡◌, inl, inr, true, false, Option, some, arith, Option-cases, length}
use mayfly_agent.Text.Trim.{trim}
use mayfly_agent.Text.Utf8.{as_bytes}
use mayfly_agent.Result.{ok, Result-cases}
use mayfly_agent.Crates.{Crates, Instant, SshPublicKey}
use mayfly_agent.Bundle.Types.{CaBundleResponse, CaBundle, signature_algorithm}
use mayfly_agent.Bundle.Canonical.{sort_keys, canonical_signing_payload, compute_fingerprint}
use mayfly_agent.Bundle.Validate.{
  unwrap_or_default, unwrap_or_zero, verify_signature, authenticate, validate_content,
  validate_window, from_response, pin_differs,
}

-- A signature that verifies under the Ed25519 key of a key line.
pub record IsSigned (lib : Crates) (payload : Bytes) (signature : Text) (signing_key : Text)
    : Type 0 where
  pub key : SshPublicKey
  pub ed : Bytes
  pub verifying_key : Bytes
  pub sig_bytes : Bytes
  pub parsed : lib.from_openssh signing_key ≡ some key
  pub is_ed25519 : key.ed25519 ≡ some ed
  pub is_point : lib.verifying_key ed ≡ some verifying_key
  pub decoded : lib.base64_decode (trim signature) ≡ some sig_bytes
  pub length_64 : length sig_bytes ≡ 64
  pub verified : lib.verify_strict verifying_key payload sig_bytes ≡ true

pub verify_signature-IsSigned :
    (lib : Crates) (payload : Bytes) (signature signing_key : Text)
    → verify_signature lib payload signature signing_key ≡ ok tt
    → IsSigned lib payload signature signing_key
unfolding verify_signature
verify_signature-IsSigned lib payload signature signing_key h =
    elim (Option-cases (lib.from_openssh signing_key)) [
      | inl none_parsed ↦ absurd (ground arith)
      | inr (key, parsed) ↦ elim (Option-cases key.ed25519) [
        | inl no_ed ↦ absurd (ground arith)
        | inr (ed, is_ed) ↦ elim (Option-cases (lib.verifying_key ed)) [
          | inl no_point ↦ absurd (ground arith)
          | inr (verifying_key, point) ↦ elim (Option-cases (lib.base64_decode (trim signature))) [
            | inl not_decoded ↦ absurd (ground arith)
            | inr (sig_bytes, decoded) ↦ record {
              key = key;
              ed = ed;
              verifying_key = verifying_key;
              sig_bytes = sig_bytes;
              parsed = parsed;
              is_ed25519 = is_ed;
              is_point = point;
              decoded = decoded;
              length_64 = ground arith;
              verified = ground arith;
            }
          ]
        ]
      ]
    ]

-- The header of an accepted response: version, algorithm, pin and signature.
pub record IsAuthentic (lib : Crates) (raw : CaBundleResponse) (pin : Option Text) : Type 0 where
  pub version : raw.bundle_version ≡ some 1
  pub algorithm : unwrap_or_default raw.signature_algorithm ≡ signature_algorithm
  pub pin_matches : pin_differs pin (unwrap_or_default raw.bundle_signing_public_key) ≡ false
  pub signed :
      IsSigned lib
        (as_bytes (
          canonical_signing_payload 1
            (unwrap_or_zero raw.generation)
            (unwrap_or_default raw.fingerprint)
            (unwrap_or_default raw.created_at)
            (unwrap_or_default raw.expires_at)
            raw.keys))
        (unwrap_or_default raw.signature)
        (unwrap_or_default raw.bundle_signing_public_key)

authenticate_gates :
    (lib : Crates) (raw : CaBundleResponse) (pin : Option Text) (v : ℕ)
    → authenticate lib raw pin v ≡ ok tt
    → (v ≡ 1)
      × (text_eq (unwrap_or_default raw.signature_algorithm) signature_algorithm ≡ true)
      × (pin_differs pin (unwrap_or_default raw.bundle_signing_public_key) ≡ false)
      × (verify_signature lib
            (as_bytes (
              canonical_signing_payload v
                (unwrap_or_zero raw.generation)
                (unwrap_or_default raw.fingerprint)
                (unwrap_or_default raw.created_at)
                (unwrap_or_default raw.expires_at)
                raw.keys))
            (unwrap_or_default raw.signature)
            (unwrap_or_default raw.bundle_signing_public_key)
          ≡ ok tt)
unfolding authenticate
authenticate_gates lib raw pin v h = ground arith

pub from_response_stages :
    (lib : Crates) (raw : CaBundleResponse) (now : Instant) (pin : Option Text) (bundle : CaBundle)
    → from_response lib raw now pin ≡ ok bundle
    → (v : ℕ) × (window : Instant × Instant) × (raw.bundle_version ≡ some v)
      × (authenticate lib raw pin v ≡ ok tt)
      × (validate_content lib raw ≡ ok tt)
      × (validate_window lib raw now ≡ ok window)
      × (bundle ≡ record {
        bundle_version = v;
        generation = unwrap_or_zero raw.generation;
        fingerprint = compute_fingerprint lib (unwrap_or_zero raw.generation) (sort_keys raw.keys);
        created_at = window.0;
        expires_at = window.1;
        keys = sort_keys raw.keys;
        signing_public_key = unwrap_or_default raw.bundle_signing_public_key;
      })
unfolding from_response
from_response_stages lib raw now pin bundle h = elim (Option-cases raw.bundle_version) [
  | inl missing ↦ absurd (ground arith)
  | inr (v, present) ↦ elim (Result-cases (authenticate lib raw pin v)) [
    | inr (e, refused) ↦ absurd (ground arith)
    | inl (_, authentic) ↦ elim (Result-cases (validate_content lib raw)) [
      | inr (e, refused) ↦ absurd (ground arith)
      | inl (_, content) ↦ elim (Result-cases (validate_window lib raw now)) [
        | inr (e, refused) ↦ absurd (ground arith)
        | inl (window, open_now) ↦ (v, window, present, authentic, content, open_now, ground arith)
      ]
    ]
  ]
]

pub authenticate-IsAuthentic :
    (lib : Crates) (raw : CaBundleResponse) (pin : Option Text) (v : ℕ)
    → raw.bundle_version ≡ some v
    → authenticate lib raw pin v ≡ ok tt
    → IsAuthentic lib raw pin
authenticate-IsAuthentic lib raw pin v present h =
    let (one, algorithm, pin_matches, verified) = authenticate_gates lib raw pin v h in
    record {
      version = rw one at present;
      algorithm = (text_eq_iff _ _).0 algorithm;
      pin_matches = pin_matches;
      signed = verify_signature-IsSigned lib _ _ _ (rw one at verified);
    }
