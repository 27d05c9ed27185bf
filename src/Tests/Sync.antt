-- ===== src/Tests/Sync.antt =====
-- A pass that installs a new bundle, and instances of the theorems on passes.
use mayfly_agent.Protocol.CaSync.Updated.{synchronize_updated, IsUpdated}
use mayfly_agent.Protocol.CaSync.Pass.{
  report_applied, apply, settle, process, conclude, synchronize,
}
use mayfly_agent.Protocol.CaSync.Service.{updated, applied, written, CaSyncService}
use mayfly_agent.Tests.Toy.{bundle_of_response, toy, five_seconds, response}
use mayfly_agent.Text.Decimal.{u64_mod, parse_u64, parse_digits, decimal}
use mayfly_agent.Bundle.Validate.{
  unwrap_or_zero, validate_keys, validate_content, fingerprints_equal, public_keys_equal,
  from_response, authenticate, material, has_equal_neighbours, verify_signature, insert_text,
  validate_key_id, sort_texts, validate_window,
}
use mayfly_agent.Protocol.CaSync.Delegated.{synchronize_delegates, NoneOrAccepted}
use mayfly_agent.Bundle.Types.{CaBundleResponse}
use mayfly_agent.Protocol.CaSync.Generation.{synchronize_generation, KeptOrAdvanced}
use mayfly_agent.Protocol.CaSync.Pin.{synchronize_keeps_pin}
use mayfly_agent.Text.Utf8.{from_utf8, as_bytes}
use mayfly_agent.Ssh.TrustedCa.{
  check_bytes, is_valid_base64, trailing_padding, is_allowed, is_base64_char, parse,
  collect_comment,
}
use mayfly_agent.Text.Trim.{trim_start, trim, trim_end}
use mayfly_agent.Text.Chars.{
  is_ascii_alphanumeric, text_le, byte_len, starts_with_code, is_whitespace, is_ascii_graphic,
  text_eq, strip_prefix, is_control, Bytes, codes,
}
use mayfly_agent.Protocol.CaSync.Step.{
  World, persist_pin_if_needed, write_timestamp, persist_after_apply, ask_helper, secure_write,
  acknowledge,
}
use mayfly_agent.Bundle.Canonical.{
  escape_char, insert_key, canonical_json, canonical_signing_payload, compute_fingerprint,
  keys_array, json_escape, hex_digit, sort_keys, key_object, keys_from,
}
use mayfly_agent.Result.{ok}
use mayfly_agent.Protocol.CaSync.Load.{
  try_acknowledge, accept, trimmed_text, fetch_bundle, sign_at, read_optional, expected_signing_key,
  parse_generation, read_generation, read_optional_string, load_state,
}
use mayfly_agent.Bundle.Render.{
  render_key_line, render_keys, render_trusted_user_ca_keys, algorithm_of, blob_of,
}
use mayfly_agent.Identity.Keypair.{sign, validate_ed25519_public_key}
use mayfly_agent.ConstantTime.{constant_time_eq}
use mayfly_agent.Text.Words.{split_whitespace}
use mayfly_agent.Protocol.Signing.{sign_request}
use mayfly_agent.Text.Lines.{lines}
use mayfly_agent.Protocol.CaSync.Monotone.{synchronize_monotone, ReadsU64}
use mayfly_agent.Prelude.{◌≤◌, ◌<◌, ◌≡◌, refl, sym, true, none, some, [], ◌∷◌, arith}
use mayfly_agent.Tests.Requests.{toy_keypair}

abbrev pub service : CaSyncService
service = record {
  get = λ request. ok (record { status = 200; body = [] });
  post = λ request. ok (record { status = 204; body = [] });
  apply_keys = λ contents. ok applied;
  now = λ at. five_seconds;
  nonce = λ at. codes "n";
  bundle_from_json = λ bytes. some response;
  report_to_json = λ report. some (codes "{}");
  can_read = λ at slot. true;
  fate = λ slot. written;
  keypair = toy_keypair;
  machine_id = codes "m";
  server_url = codes "https://mayfly/";
  pinned_signing_key = none;
}

abbrev pin_line : Bytes
pin_line = codes "ssh-ed25519 CCCC\n"

abbrev start : World
start = record {
  files = record {
    generation = some (codes "2\n");
    fingerprint = none;
    signing_key = some pin_line;
    last_sync = none;
    last_success = none;
  };
  delegated = [];
  reports = [];
}

generation_before : read_generation service start.files ≡ ok (some 2)
unfolding read_generation read_optional_string read_optional trimmed_text parse_generation from_utf8
    parse_u64 parse_digits trim trim_start trim_end is_whitespace
generation_before = refl

generation_after : read_generation service (synchronize toy service start).0.files ≡ ok (some 3)
unfolding read_generation read_optional_string read_optional trimmed_text parse_generation from_utf8
    parse_u64 parse_digits trim trim_start trim_end is_whitespace synchronize load_state
    fetch_bundle sign_at sign_request sign process settle accept apply ask_helper conclude
    acknowledge persist_after_apply persist_pin_if_needed secure_write write_timestamp
    expected_signing_key try_acknowledge from_response authenticate validate_content validate_window
    validate_keys validate_key_id validate_ed25519_public_key verify_signature compute_fingerprint
    canonical_json sort_keys has_equal_neighbours sort_texts fingerprints_equal constant_time_eq
    public_keys_equal canonical_signing_payload text_eq is_control algorithm_of split_whitespace
    is_valid_base64 blob_of as_bytes is_base64_char is_ascii_alphanumeric decimal json_escape
    escape_char keys_array keys_from insert_key hex_digit key_object insert_text material
    check_bytes trailing_padding byte_len is_ascii_graphic text_le parse is_allowed lines
    collect_comment strip_prefix starts_with_code render_trusted_user_ca_keys render_keys
    render_key_line
generation_after = refl

synchronize_generation_example : KeptOrAdvanced toy service start (synchronize toy service start).0
synchronize_generation_example = synchronize_generation toy service start

synchronize_delegates_example : NoneOrAccepted toy service start (synchronize toy service start).0
synchronize_delegates_example = synchronize_delegates toy service start

synchronize_keeps_pin_example : (synchronize toy service start).0.files.signing_key ≡ some pin_line
synchronize_keeps_pin_example = synchronize_keeps_pin toy service pin_line start refl

pub reads_u64 : ReadsU64 service
reads_u64 bytes raw e = small raw (sym e)
  where
    small :
        (raw : CaBundleResponse)
        → some raw ≡ some response
        → unwrap_or_zero raw.generation < u64_mod
    small raw e = ground arith

synchronize_monotone_example : 2 ≤ 3
synchronize_monotone_example =
    synchronize_monotone service toy start 2 3 reads_u64 generation_before generation_after

abbrev finish : World
finish = record {
  files = record {
    generation = some (codes "3\n");
    fingerprint = some (codes "sha256:ab\n");
    signing_key = some pin_line;
    last_sync = some (codes "5000000000\n");
    last_success = some (codes "5000000000\n");
  };
  delegated = render_trusted_user_ca_keys bundle_of_response ∷ [];
  reports = report_applied bundle_of_response ∷ [];
}

pass_updated : synchronize toy service start ≡ (finish, ok (updated 3 (codes "sha256:ab") true))
unfolding read_generation read_optional_string read_optional trimmed_text parse_generation from_utf8
    parse_u64 parse_digits trim trim_start trim_end is_whitespace synchronize load_state
    fetch_bundle sign_at sign_request sign process settle accept apply ask_helper conclude
    acknowledge persist_after_apply persist_pin_if_needed secure_write write_timestamp
    expected_signing_key try_acknowledge from_response authenticate validate_content validate_window
    validate_keys validate_key_id validate_ed25519_public_key verify_signature compute_fingerprint
    canonical_json sort_keys has_equal_neighbours sort_texts fingerprints_equal constant_time_eq
    public_keys_equal canonical_signing_payload text_eq is_control algorithm_of split_whitespace
    is_valid_base64 blob_of as_bytes is_base64_char is_ascii_alphanumeric decimal json_escape
    escape_char keys_array keys_from insert_key hex_digit key_object insert_text material
    check_bytes trailing_padding byte_len is_ascii_graphic text_le parse is_allowed lines
    collect_comment strip_prefix starts_with_code render_trusted_user_ca_keys render_keys
    render_key_line
pass_updated = refl

synchronize_updated_example : IsUpdated toy service start.files 3 (codes "sha256:ab") finish
synchronize_updated_example =
    synchronize_updated toy service 3 (codes "sha256:ab") true finish start pass_updated
