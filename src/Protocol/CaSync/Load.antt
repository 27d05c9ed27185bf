-- ===== src/Protocol/CaSync/Load.antt =====
-- src/protocol/ca_sync.rs: reading the state files, and the two signed requests.
use mayfly_agent.Errors.{
  generation_regressed, invalid_key, invalid_ca_bundle, io, ca_bundle_rejected, request_signing,
  machine_record_invalid, Error,
}
use mayfly_agent.Protocol.CaSync.Service.{
  at_validation, signing_key_path, at_acknowledge, generation_path, fingerprint_path, at_fetch,
  content, at_load, AckReport, PersistedState, CaSyncService, Files, Slot, Moment,
}
use mayfly_agent.Bundle.Validate.{from_response}
use mayfly_agent.Result.{map_err, err, reject_if, ok_or, ok, ◌>>◌, ◌>>=◌, Result}
use mayfly_agent.Text.Trim.{trim}
use mayfly_agent.Bundle.Types.{ca_bundle_ack_path, ca_bundle_path, CaBundle, header_if_none_match}
use mayfly_agent.Protocol.Signing.{signing_headers, unix_timestamp, sign_request, SignedHeaders}
use mayfly_agent.Text.Utf8.{from_utf8}
use mayfly_agent.Protocol.Http.{join_url, is_success, HttpResponse}
use mayfly_agent.Text.Decimal.{parse_u64}
use mayfly_agent.Crates.{Crates}
use mayfly_agent.Prelude.{
  ℕ, Bool, false, not, Option, none, some, List, [], ◌∷◌, ◌++◌, ltb, if◌then◌else◌, is_empty,
}
use mayfly_agent.Text.Chars.{Text, Bytes, codes}

unfoldable pub read_optional : CaSyncService → Moment → Slot → Files → Result Error (Option Bytes)
read_optional service at slot files =
    if service.can_read at slot then ok (content slot files) else err io

-- A missing file and a blank one are both `none`.
unfoldable pub trimmed_text : Option Bytes → Result Error (Option Text)
trimmed_text none = ok none
trimmed_text (some bytes) = do
  text ← ok_or machine_record_invalid (from_utf8 bytes)
  let trimmed = trim text
  ok (if is_empty trimmed then none else some trimmed)

unfoldable pub read_optional_string :
    CaSyncService → Moment → Slot → Files → Result Error (Option Text)
unfolding read_optional trimmed_text
read_optional_string service at slot files = do
  bytes ← read_optional service at slot files
  trimmed_text bytes

unfoldable pub parse_generation : Option Text → Result Error (Option ℕ)
parse_generation none = ok none
parse_generation (some text) = do
  value ← ok_or machine_record_invalid (parse_u64 (trim text))
  ok (some value)

unfoldable pub read_generation : CaSyncService → Files → Result Error (Option ℕ)
unfolding parse_generation read_optional_string
read_generation service files = do
  text ← read_optional_string service at_load generation_path files
  parse_generation text

unfoldable pub load_state : CaSyncService → Files → Result Error PersistedState
unfolding read_generation read_optional_string
load_state service files = do
  generation ← read_generation service files
  fingerprint ← read_optional_string service at_load fingerprint_path files
  signing_key ← read_optional_string service at_load signing_key_path files
  ok (record { generation = generation; fingerprint = fingerprint; signing_key = signing_key })

abbrev pub or_else : Option Text → Option Text → Option Text
or_else (some a) b = some a
or_else none b = b

unfoldable pub expected_signing_key : CaSyncService → PersistedState → Option Text
expected_signing_key service persisted = or_else service.pinned_signing_key persisted.signing_key

unfoldable pub sign_at :
    Crates → CaSyncService → Moment → Text → Text → Bytes → Result Error SignedHeaders
sign_at lib service at method path body =
    sign_request lib service.keypair service.machine_id (unix_timestamp (service.now at))
      (service.nonce at) method path body

-- `If-None-Match` with the fingerprint in quotes, when one has been applied.
abbrev pub etag_header : Option Text → List (Text × Text)
etag_header none = []
etag_header (some fingerprint) = (header_if_none_match, 34 ∷ (fingerprint ++ 34 ∷ [])) ∷ []

unfoldable pub fetch_bundle : Crates → CaSyncService → Option Text → Result Error HttpResponse
unfolding sign_at
fetch_bundle lib service current_fingerprint = do
  signed ← sign_at lib service at_fetch (codes "GET") ca_bundle_path []
  service.get (record {
    url = join_url service.server_url ca_bundle_path;
    headers = signing_headers signed ++ etag_header current_fingerprint;
    body = [];
  })

unfoldable pub try_acknowledge : Crates → CaSyncService → AckReport → Result Error (Unit {0})
unfolding sign_at
try_acknowledge lib service report = do
  body ← ok_or request_signing (service.report_to_json report)
  signed ← sign_at lib service at_acknowledge (codes "POST") ca_bundle_ack_path body
  response ← service.post (record {
    url = join_url service.server_url ca_bundle_ack_path;
    headers = signing_headers signed ++ (codes "content-type", codes "application/json") ∷ [];
    body = body;
  })
  reject_if (not (is_success response.status)) ca_bundle_rejected
  ok tt

-- `bundle.generation() < prev`.
abbrev pub regressed : Option ℕ → ℕ → Bool
regressed none generation = false
regressed (some prev) generation = ltb generation prev

-- From the response to the accepted bundle: status, JSON, `from_response`, downgrade protection.
unfoldable pub accept :
    Crates → CaSyncService → PersistedState → HttpResponse → Result Error CaBundle
accept lib service persisted response = do
  reject_if (not (is_success response.status)) ca_bundle_rejected
  raw ← ok_or (invalid_ca_bundle invalid_key) (service.bundle_from_json response.body)
  bundle ←
      map_err invalid_ca_bundle
        (from_response lib raw (service.now at_validation) (expected_signing_key service persisted))
  reject_if (regressed persisted.generation bundle.generation)
      (invalid_ca_bundle generation_regressed)
  ok bundle
