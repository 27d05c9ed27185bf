-- ===== src/Tests/Starting.antt =====
-- The first start of an agent: the server cannot be reached at first, and takes the second attempt.
use mayfly_agent.Service.RuntimeState.{
  read_optional_text, read_optional_file, pin_bundle_signing_key,
}
use mayfly_agent.Identity.Keypair.{
  validate_ed25519_public_key, from_openssh_private, generate, to_openssh_private,
  public_key_openssh,
}
use mayfly_agent.Security.Write.{
  parent, fill, write_contents, atomic_replace, parent_of, secure_write, History,
}
use mayfly_agent.Identity.Enrollment.{
  is_valid_interval, validate_label, validate_hostname, validate_response, validate_server_url,
  validate_token,
}
use mayfly_agent.Security.Store.{read_file, read_to_string, is_file, and_then}
use mayfly_agent.Ssh.TrustedCa.{check_bytes, trailing_padding, is_base64_char, is_valid_base64}
use mayfly_agent.Identity.Enrollment.Service.{
  enroll, generate_machine_keypair, prepare, persist_machine_identity, read_keypair,
  load_machine_identity, load_or_generate_keypair, write_keypair,
}
use mayfly_agent.Identity.Enrollment.Requests.{
  create_enrollment_request, validate_private_key_security, path_exists, is_enrolled, join,
  EnrollmentService,
}
use mayfly_agent.Text.Trim.{trim_end_matches, trim, trim_end, trim_start}
use mayfly_agent.Text.Lines.{split}
use mayfly_agent.Text.Chars.{
  starts_with_code, is_whitespace, codes, ends_with_code, byte_len, text_eq, is_ascii_alphanumeric,
  strip_prefix, is_control,
}
use mayfly_agent.Security.{
  is_symlink, validate_owner, ensure_not_group_or_world_writable, metadata, symlink_metadata,
  ensure_not_symlink, validate_mode_at_most,
}
use mayfly_agent.Bundle.Render.{algorithm_of, blob_of}
use mayfly_agent.Text.Words.{split_whitespace}
use mayfly_agent.Protocol.Http.{join_url}
use mayfly_agent.Text.Integer.{difference}
use mayfly_agent.Protocol.CaSync.Load.{trimmed_text}
use mayfly_agent.Protocol.Signing.{unix_timestamp}
use mayfly_agent.Text.Utf8.{as_bytes, from_utf8}
use mayfly_agent.Service.Backoff.{retry_from, retry_with_backoff, delay, default_policy}
use mayfly_agent.Identity.Machine.{load, save, into_identity, to_record, MachineIdentity}
use mayfly_agent.Service.Daemon.Enrolling.Enrolled.{ensure_enrolled_enrolls, EndsEnrolled}
use mayfly_agent.Service.Daemon.Enrolling.{
  attempt, usable_token, retry_enroll, ensure_enrolled, EnrollSurroundings, attempted,
}
use mayfly_agent.Errors.{Error, enrollment_transport}
use mayfly_agent.Identity.ApiClient.{HttpEnrollmentClient, exchange}
use mayfly_agent.Config.{with_defaults, Config, bundle_signing_key_path}
use mayfly_agent.Result.{Result, ok, err, is_ok}
use mayfly_agent.Service.Scheduler.{next_u64}
use mayfly_agent.Prelude.{
  ℕ, ◌≡◌, refl, Bool, true, false, Option, none, some, [], arith, ltb, if◌then◌else◌,
}
use mayfly_agent.Tests.Enrolling.{outside, answer}
use mayfly_agent.Tests.Writes.{run}
use mayfly_agent.Tests.Configs.{config}
use mayfly_agent.Tests.Cadence.{toy_floats, draws}

abbrev here : EnrollmentService
here = record {
  private_key_path = codes "/e/machine_ed25519";
  public_key_path = codes "/e/machine_ed25519.pub";
  record_path = codes "/e/machine.json";
}

abbrev blank : History
blank = record { present = record { lookup = λ p. none; unreadable = λ p. false }; past = [] }

abbrev server : ℕ → HttpEnrollmentClient
server n = record {
  post_json = λ url body.
      if ltb n 2 then err enrollment_transport else ok (record { status = 200; body = [] });
  request_to_json = λ request. some (codes "{}");
  response_from_json = λ body. some answer;
  server_url = [];
}

abbrev around : EnrollSurroundings
around = record {
  outside = λ n. outside;
  client = server;
  token = some (codes "mf_enroll_a1");
  http = ok tt;
  shutdown = λ n. ltb 8 n;
  pin_run = record run { dir_synced = true };
}

abbrev with_https : Config toy_floats
with_https = record config { server_url = codes "https://mayfly" }

abbrev started : Option (History × Result Error MachineIdentity)
started = ensure_enrolled toy_floats around with_https here (codes "web-01") 10 draws blank

abbrev has_identity : Option (History × Result Error MachineIdentity) → Option Bool
has_identity none = none
has_identity (some r) = some (is_ok r.1)

tmp_apart : text_eq (codes "/e/machine.json") (codes "/s/.tmp1") ≡ false
unfolding text_eq
tmp_apart = refl

pin_apart :
    text_eq (codes "/e/machine.json") (bundle_signing_key_path toy_floats with_https) ≡ false
unfolding text_eq bundle_signing_key_path join with_defaults ends_with_code
pin_apart = refl

ensure_enrolled_enrolls_example :
    EndsEnrolled toy_floats around with_https here
      (codes "web-01")
      outside.os
      (λ n. refl)
      (λ n. tmp_apart)
      pin_apart
      tmp_apart
      started
ensure_enrolled_enrolls_example =
    ensure_enrolled_enrolls toy_floats around with_https here (codes "web-01") outside.os
      (λ n. refl) (λ n. tmp_apart) pin_apart tmp_apart 9 10 draws blank refl (omega arith)

started-has_identity : has_identity started ≡ some true
unfolding with_defaults ensure_enrolled is_enrolled is_file usable_token validate_token byte_len
    is_control is_ascii_alphanumeric strip_prefix retry_enroll retry_with_backoff retry_from
    default_policy delay next_u64 attempted attempt exchange and_then enroll prepare
    validate_server_url text_eq trim is_whitespace validate_hostname split validate_label
    starts_with_code ends_with_code load_or_generate_keypair path_exists metadata symlink_metadata
    generate_machine_keypair generate bundle_signing_key_path create_enrollment_request join
    validate_private_key_security load_machine_identity persist_machine_identity read_keypair
    write_keypair is_valid_interval validate_response from_openssh_private public_key_openssh
    to_openssh_private validate_ed25519_public_key into_identity load save to_record trimmed_text
    join_url unix_timestamp read_file read_to_string atomic_replace fill parent parent_of
    secure_write write_contents ensure_not_group_or_world_writable ensure_not_symlink is_symlink
    validate_mode_at_most validate_owner pin_bundle_signing_key read_optional_file
    read_optional_text difference trim_end trim_end_matches trim_start as_bytes from_utf8
    is_valid_base64 blob_of algorithm_of split_whitespace check_bytes is_base64_char
    trailing_padding
started-has_identity = refl
