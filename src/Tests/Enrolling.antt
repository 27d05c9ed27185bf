-- ===== src/Tests/Enrolling.antt =====
-- Instances of the theorems on the machine's identity and its enrollment.
use mayfly_agent.Identity.Enrollment.Service.Enrolled.{IsGranted, enroll_once}
use mayfly_agent.Identity.Enrollment.Service.{
  prepare, persist_machine_identity, load_or_generate_keypair, read_keypair, enroll,
}
use mayfly_agent.Errors.{already_enrolled, Error}
use mayfly_agent.Result.{err, ok, Result}
use mayfly_agent.Security.{
  validate_owner, ensure_not_symlink, metadata, ensure_not_group_or_world_writable,
  symlink_metadata, is_symlink, validate_mode_at_most, mode_secret, file, Disk, Entry,
}
use mayfly_agent.Security.Store.{is_file, read_file, and_then, read_to_string}
use mayfly_agent.Identity.Machine.{
  load, save, to_record, MachineIdentity, RecordFormat, MachineRecord, into_identity,
}
use mayfly_agent.Security.Write.{
  parent, parent_of, fill, write_contents, atomic_replace, secure_write, History,
}
use mayfly_agent.Text.Trim.{trim, trim_start, trim_end, trim_end_matches}
use mayfly_agent.Bundle.Render.{blob_of, algorithm_of}
use mayfly_agent.Identity.Keypair.{
  from_openssh_private, validate_ed25519_public_key, public_key_openssh, PrivateKeys,
}
use mayfly_agent.Identity.Enrollment.{
  validate_label, validate_hostname, is_valid_interval, validate_server_url, validate_response,
  validate_token, EnrollmentRequest, EnrollmentResponse,
}
use mayfly_agent.Identity.Enrollment.Requests.{
  validate_private_key_security, path_exists, is_enrolled, create_enrollment_request, Outside,
  EnrollmentService,
}
use mayfly_agent.Text.Chars.{
  is_ascii_alphanumeric, is_control, byte_len, starts_with_code, strip_prefix, is_whitespace,
  ends_with_code, codes, text_eq, Text,
}
use mayfly_agent.Ssh.TrustedCa.{is_valid_base64, trailing_padding, is_base64_char, check_bytes}
use mayfly_agent.Text.Utf8.{as_bytes, from_utf8}
use mayfly_agent.Text.Words.{split_whitespace}
use mayfly_agent.Identity.Machine.RoundTrip.{ReadsBack, into_identity-to_record}
use mayfly_agent.Text.Lines.{split}
use mayfly_agent.Text.Integer.{difference}
use mayfly_agent.Identity.Enrollment.Token.{validate_token_iff, IsToken}
use mayfly_agent.Tests.Writes.{run}
use mayfly_agent.Protocol.Signing.{unix_timestamp}
use mayfly_agent.Identity.Enrollment.Service.Keys.{
  enroll_keeps_key, read_keypair-IsOwnerOnly, IsOwnerOnly,
}
use mayfly_agent.Tests.Toy.{toy, five_seconds}
use mayfly_agent.Security.Frame.{Stands, Throughout}
use mayfly_agent.Prelude.{◌≡◌, refl, ◌↔◌, true, false, none, some, [], ◌∷◌, if◌then◌else◌}

abbrev line : Text
line = codes "ssh-ed25519 AAAA"

abbrev pub keys : PrivateKeys
keys = record {
  random = some (record { seed = some (1 ∷ []) });
  from_openssh = λ pem. some (record { is_ed25519 = true; keypair = record { seed = some pem } });
  to_openssh = λ keypair. some (codes "key");
  public_line = λ keypair. some line;
}

abbrev the_record : MachineRecord
the_record = record {
  machine_id = codes "srv_1";
  hostname = codes "web-01";
  server_url = codes "https://mayfly";
  heartbeat_interval_secs = 60;
  sync_interval_secs = 300;
  enrolled_at_unix = unix_timestamp five_seconds;
}

abbrev pub format : RecordFormat
format = record {
  to_vec_pretty = λ r. some r.machine_id;
  from_slice = λ bytes. some the_record;
  from_unix_timestamp = λ z. some five_seconds;
}

abbrev pub outside : Outside
outside = record {
  lib = toy;
  keys = keys;
  format = format;
  os = record { effective_uid = 0; readable = λ p. true; link_target = λ p. none };
  os_name = codes "linux";
  arch = codes "x86_64";
  version = codes "0.1.0";
  now = five_seconds;
  private_run = record run { dir_synced = true };
  public_run = record run { dir_synced = true };
  record_run = record run { dir_synced = true };
}

abbrev service : EnrollmentService
service = record {
  private_key_path = codes "/e/machine_ed25519";
  public_key_path = codes "/e/machine_ed25519.pub";
  record_path = codes "/e/machine.json";
}

abbrev pub key_entry : Entry
key_entry = record { kind = file; uid = 0; mode = mode_secret; content = codes "key" }

abbrev key_disk : Disk
key_disk = record {
  lookup = λ p. if text_eq p (codes "/e/machine_ed25519") then some key_entry else none;
  unreadable = λ p. false;
}

abbrev at_boot : History
at_boot = record { present = key_disk; past = [] }

abbrev pub answer : EnrollmentResponse
answer = record {
  machine_id = codes "srv_1";
  heartbeat_interval = 60;
  sync_interval = 300;
  server_identity = line;
  bundle_signing_key = none;
}

abbrev server : EnrollmentRequest → Result Error EnrollmentResponse
server request = ok answer

abbrev pub identity : MachineIdentity
identity = record {
  machine_id = codes "srv_1";
  hostname = codes "web-01";
  public_key = line;
  private_key_path = codes "/e/machine_ed25519";
  public_key_path = codes "/e/machine_ed25519.pub";
  enrolled_at = five_seconds;
  server_url = codes "https://mayfly";
  heartbeat_interval = 60_000_000_000;
  sync_interval = 300_000_000_000;
}

into_identity-to_record_example :
    into_identity format
      (to_record identity)
      line
      (codes "/e/machine_ed25519")
      (codes "/e/machine_ed25519.pub")
    ≡ ok identity
into_identity-to_record_example =
    into_identity-to_record format identity 60 300 five_seconds refl refl refl

validate_token_iff_example :
    (validate_token (codes "mf_enroll_a1") ≡ ok tt) ↔ IsToken (codes "mf_enroll_a1")
validate_token_iff_example = validate_token_iff (codes "mf_enroll_a1")

stands : Throughout (Stands (codes "/e/machine_ed25519") (some key_entry)) at_boot
unfolding text_eq
stands = ((refl, refl), tt)

key_record_apart : text_eq (codes "/e/machine_ed25519") (codes "/e/machine.json") ≡ false
unfolding text_eq
key_record_apart = refl

key_tmp_apart : text_eq (codes "/e/machine_ed25519") (codes "/s/.tmp1") ≡ false
unfolding text_eq
key_tmp_apart = refl

enroll_keeps_key_example :
    Throughout
      (Stands (codes "/e/machine_ed25519") (some key_entry))
      (enroll outside service server
        (codes "https://mayfly")
        (codes "mf_enroll_a1")
        (codes "web-01")
        at_boot).0
enroll_keeps_key_example =
    enroll_keeps_key outside service server (codes "https://mayfly") (codes "mf_enroll_a1")
      (codes "web-01") key_entry at_boot key_record_apart key_tmp_apart stands

key_read : (read_keypair outside service at_boot).1 ≡ ok (record { seed = some (codes "key") })
unfolding read_keypair ensure_not_symlink is_symlink symlink_metadata validate_owner metadata
    ensure_not_group_or_world_writable validate_mode_at_most read_to_string read_file from_utf8
    from_openssh_private text_eq and_then validate_private_key_security
key_read = refl

read_keypair-IsOwnerOnly_example : IsOwnerOnly outside service key_disk
read_keypair-IsOwnerOnly_example =
    read_keypair-IsOwnerOnly outside service at_boot (record { seed = some (codes "key") }) key_read

abbrev enrollment : History × Result Error MachineIdentity
enrollment =
    enroll outside service server (codes "https://mayfly") (codes "mf_enroll_a1") (codes "web-01")
      at_boot

enrolled : enrollment.1 ≡ ok identity
unfolding enroll prepare is_enrolled is_file validate_server_url trim trim_start trim_end
    is_whitespace strip_prefix validate_token byte_len is_control is_ascii_alphanumeric
    validate_hostname split validate_label starts_with_code ends_with_code create_enrollment_request
    path_exists load_or_generate_keypair persist_machine_identity read_keypair is_valid_interval
    validate_response public_key_openssh validate_ed25519_public_key save to_record unix_timestamp
    is_valid_base64 blob_of algorithm_of split_whitespace check_bytes is_base64_char
    trailing_padding as_bytes secure_write write_contents fill atomic_replace parent_of parent
    trim_end_matches difference ensure_not_symlink is_symlink symlink_metadata validate_owner
    metadata ensure_not_group_or_world_writable validate_mode_at_most read_to_string read_file
    from_utf8 from_openssh_private text_eq and_then validate_private_key_security
enrolled = refl

seen : enrollment.0.present.unreadable (codes "/e/machine.json") ≡ false
unfolding enroll prepare is_enrolled is_file validate_server_url trim trim_start trim_end
    is_whitespace strip_prefix validate_token byte_len is_control is_ascii_alphanumeric
    validate_hostname split validate_label starts_with_code ends_with_code create_enrollment_request
    path_exists load_or_generate_keypair persist_machine_identity read_keypair is_valid_interval
    validate_response public_key_openssh validate_ed25519_public_key save to_record unix_timestamp
    is_valid_base64 blob_of algorithm_of split_whitespace check_bytes is_base64_char
    trailing_padding as_bytes secure_write write_contents fill atomic_replace parent_of parent
    trim_end_matches difference ensure_not_symlink is_symlink symlink_metadata validate_owner
    metadata ensure_not_group_or_world_writable validate_mode_at_most read_to_string read_file
    from_utf8 from_openssh_private text_eq and_then validate_private_key_security
seen = refl

record_apart : text_eq (codes "/e/machine.json") (codes "/s/.tmp1") ≡ false
unfolding text_eq
record_apart = refl

reads_back : ReadsBack format (to_record identity)
unfolding to_record unix_timestamp
reads_back json e = refl

enroll_once_example :
    IsGranted outside service server
      (codes "https://mayfly")
      (codes "mf_enroll_a1")
      (codes "web-01")
      at_boot
      identity
    × (load format outside.os (codes "/e/machine.json") enrollment.0.present
        ≡ ok (to_record identity))
    × ((exchange : EnrollmentRequest → Result Error EnrollmentResponse)
          (server_url token hostname : Text)
        → enroll outside service exchange server_url token hostname enrollment.0
          ≡ (enrollment.0, err already_enrolled))
enroll_once_example =
    enroll_once outside service record_apart server (codes "https://mayfly") (codes "mf_enroll_a1")
      (codes "web-01") identity at_boot reads_back refl enrolled seen
