-- ===== src/Bundle/Accepted.antt =====
-- `from_response` from the outside: what holds of every bundle that it returns.
use mathlib.Core.List.{Perm}
use mayfly_agent.Prelude.{
  ℕ, ◌+◌, ◌*◌, ◌≤◌, ◌<◌, ◌≡◌, inl, inr, false, Option, some, List, [], ◌∷◌, map, arith, Bool-cases,
  any, All,
}
use mayfly_agent.Text.Chars.{Text, Bytes, text_le}
use mayfly_agent.Text.Lines.{is_line_end}
use mayfly_agent.Text.Utf8.{as_bytes}
use mayfly_agent.Result.{ok}
use mayfly_agent.Crates.{Crates, Instant, nanos_per_sec}
use mayfly_agent.Ssh.TrustedCa.{parse}
use mayfly_agent.Bundle.Types.{CaBundleKey, CaBundleResponse, CaBundle}
use mayfly_agent.Bundle.Canonical.{canonical_json, insert_key, sort_keys, compute_fingerprint}
use mayfly_agent.Bundle.Canonical.Sorting.{sort_keys-perm}
use mayfly_agent.Bundle.Validate.{unwrap_or_default, unwrap_or_zero, validate_window, from_response}
use mayfly_agent.Bundle.Validate.Sound.{IsAuthentic, authenticate-IsAuthentic, from_response_stages}
use mayfly_agent.Bundle.Validate.Content.{IsWellFormed, validate_content-IsWellFormed}
use mayfly_agent.Bundle.Render.{render_trusted_user_ca_keys}
use mayfly_agent.Bundle.Render.KeyLine.{
  IsPublishable, ReadsOpensshLines, validate_keys-IsPublishable, trusted_key,
}
use mayfly_agent.Bundle.Render.Published.{parse-render}

-- The bundle stands for the response, and its validity window is open.
pub record IsAccepted (lib : Crates) (raw : CaBundleResponse) (now : Instant) (pin : Option Text)
    (bundle : CaBundle) : Type 0 where
  pub authentic : IsAuthentic lib raw pin
  pub content : IsWellFormed lib raw
  pub version : bundle.bundle_version ≡ 1
  pub generation : bundle.generation ≡ unwrap_or_zero raw.generation
  pub fingerprint : bundle.fingerprint ≡ compute_fingerprint lib bundle.generation bundle.keys
  pub sorted : bundle.keys ≡ sort_keys raw.keys
  pub same_keys : Perm bundle.keys raw.keys
  pub signing_key : bundle.signing_public_key ≡ unwrap_or_default raw.bundle_signing_public_key
  pub created : lib.parse_rfc3339 (unwrap_or_default raw.created_at) ≡ some bundle.created_at
  pub expires : lib.parse_rfc3339 (unwrap_or_default raw.expires_at) ≡ some bundle.expires_at
  pub not_expired : now < bundle.expires_at
  pub ordered : bundle.created_at < bundle.expires_at
  pub not_future : bundle.created_at ≤ now + 60 * nanos_per_sec

validate_window_gates :
    (lib : Crates) (raw : CaBundleResponse) (now : Instant) (w : Instant × Instant)
    → validate_window lib raw now ≡ ok w
    → (lib.parse_rfc3339 (unwrap_or_default raw.created_at) ≡ some w.0)
      × (lib.parse_rfc3339 (unwrap_or_default raw.expires_at) ≡ some w.1)
      × (now < w.1)
      × (w.0 < w.1)
      × (w.0 ≤ now + 60 * nanos_per_sec)
unfolding validate_window
validate_window_gates lib raw now w h = ground arith

-- An accepted bundle was signed, by the pinned key if there is a pin, over all its fields; it has
-- version 1, a positive generation, 1 to 64 valid keys with distinct ids and distinct public keys,
-- the fingerprint that the agent computes itself and that was advertised; it is sorted, holds
-- exactly the keys of the response, has not expired and is dated at most 60 s ahead.
pub from_response_sound :
    (lib : Crates) (raw : CaBundleResponse) (now : Instant) (pin : Option Text) (bundle : CaBundle)
    → from_response lib raw now pin ≡ ok bundle
    → IsAccepted lib raw now pin bundle
from_response_sound lib raw now pin bundle h =
    let (v, w, present, authentic, content, open_now, e) =
      from_response_stages lib raw now pin bundle h in
    let header = authenticate-IsAuthentic lib raw pin v present authentic in
    let (created, expires, alive, ordered, near) = validate_window_gates lib raw now w open_now in
    let sorted : bundle.keys ≡ sort_keys raw.keys = ground arith in
    record {
      authentic = header;
      content = validate_content-IsWellFormed lib raw content;
      version = ground arith;
      generation = ground arith;
      fingerprint = ground arith;
      sorted = sorted;
      same_keys = rw sorted (sort_keys-perm raw.keys);
      signing_key = ground arith;
      created = ground arith;
      expires = ground arith;
      not_expired = ground arith;
      ordered = ground arith;
      not_future = ground arith;
    }

module _ (P : CaBundleKey → Type 0) where
  All-insert_key :
      (k : CaBundleKey) (ks : List CaBundleKey) → P k → All P ks → All P (insert_key k ks)
  unfolding insert_key
  All-insert_key k [] p ps = (p, tt)
  All-insert_key k (j ∷ js) p ps = elim (Bool-cases (text_le k.key_id j.key_id)) [
    | inl e ↦ rw e (p, ps)
    | inr e ↦ rw e (ps.0, All-insert_key k js p ps.1)
  ]

  All-sort_keys : (ks : List CaBundleKey) → All P ks → All P (sort_keys ks)
  unfolding sort_keys
  All-sort_keys [] ps = tt
  All-sort_keys (k ∷ ks) ps = All-insert_key k (sort_keys ks) ps.0 (All-sort_keys ks ps.1)

-- `hex::encode` prints digits and letters only.
abbrev pub PrintsHex : Crates → Type 0
PrintsHex lib = (bytes : Bytes) → any is_line_end (lib.hex_encode bytes) ≡ false

compute_fingerprint-one_line :
    (lib : Crates) (generation : ℕ) (keys : List CaBundleKey)
    → PrintsHex lib
    → any is_line_end (compute_fingerprint lib generation keys) ≡ false
unfolding compute_fingerprint
compute_fingerprint-one_line lib generation keys hex =
    ground (arith, hex (lib.sha256 (as_bytes (canonical_json generation keys))))

-- The file rendered for an accepted bundle passes the agent's own parser, as the keys of the
-- bundle in order: the check before the helper is called never refuses an accepted bundle. It is
-- assumed that `from_openssh` reads only lines that start with the algorithm and a base64 blob,
-- and that `hex::encode` prints no line end.
pub accepted_published :
    (lib : Crates) (raw : CaBundleResponse) (now : Instant) (pin : Option Text) (bundle : CaBundle)
    → ReadsOpensshLines lib
    → PrintsHex lib
    → from_response lib raw now pin ≡ ok bundle
    → parse (render_trusted_user_ca_keys bundle) ≡ ok (map trusted_key bundle.keys)
accepted_published lib raw now pin bundle reads hex h =
    let a = from_response_sound lib raw now pin bundle h in
    let valid = validate_keys-IsPublishable lib reads raw.keys a.content.keys_valid in
    parse-render bundle (rw a.sorted (All-sort_keys IsPublishable raw.keys valid))
      (rw a.fingerprint (compute_fingerprint-one_line lib bundle.generation bundle.keys hex))
