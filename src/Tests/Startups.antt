-- ===== src/Tests/Startups.antt =====
-- Instances of the theorems on the startup checks and on the pin of the enrollment.
use mayfly_agent.Security.Store.{is_dir, and_then, Os}
use mayfly_agent.Protocol.CaSync.Load.{trimmed_text}
use mayfly_agent.Service.Validation.Startup.{validate_startup_iff}
use mayfly_agent.Service.Validation.{validate_startup, into_result}
use mayfly_agent.Tests.Toy.{toy}
use mayfly_agent.Result.{ok}
use mayfly_agent.Service.RuntimeState.Pin.{pin_bundle_signing_key_sound, PinCases}
use mayfly_agent.Tests.Configs.{config}
use mayfly_agent.Text.Chars.{codes, is_whitespace, Text, ends_with_code, text_eq}
use mayfly_agent.Tests.Cadence.{toy_floats}
use mayfly_agent.Tests.Writes.{run, disk}
use mayfly_agent.Ipc.Client.{HelperClient}
use mayfly_agent.Security.Write.{
  parent_of, secure_write, History, parent, Run, fill, atomic_replace, write_contents,
}
use mayfly_agent.Text.Trim.{trim_start, trim, trim_end, trim_end_matches}
use mayfly_agent.Config.{with_defaults, bundle_signing_key_path}
use mayfly_agent.Service.RuntimeState.{
  read_optional_text, read_optional_file, pin_bundle_signing_key,
}
use mayfly_agent.Identity.Enrollment.Requests.{join}
use mayfly_agent.Config.Validate.{validate}
use mayfly_agent.Prelude.{◌≡◌, refl, ◌↔◌, true, false, Option, none, some, []}

abbrev os : Os
os = record { effective_uid = 0; readable = λ p. true; link_target = λ p. none }

abbrev pub no_helper : Text → HelperClient
no_helper token = record {
  token = token;
  connect = none;
  set_timeouts = false;
  reply = λ bytes. [];
  encode_request = λ request. none;
  decode_response = λ bytes. none;
}

validate_startup_iff_example :
    (into_result (validate_startup toy_floats toy os no_helper true config disk) ≡ ok tt) ↔ (
      (validate toy_floats toy config ≡ ok tt)
      × (is_dir os disk (codes "/etc/mayfly-agent") ≡ true))
unfolding with_defaults
validate_startup_iff_example = validate_startup_iff toy_floats toy os no_helper true config disk

abbrev sent_key : Option Text
sent_key = some (codes " ssh-ed25519 AAAA ")

abbrev with_run : Run
with_run = record run { dir_synced = true }

abbrev start : History
start = record { present = disk; past = [] }

pinned : (pin_bundle_signing_key toy_floats os with_run config sent_key start).1 ≡ ok true
unfolding trimmed_text pin_bundle_signing_key bundle_signing_key_path join with_defaults
    read_optional_text read_optional_file and_then text_eq secure_write write_contents fill
    atomic_replace parent_of parent trim_end_matches trim trim_start trim_end is_whitespace
    ends_with_code
pinned = refl

path_apart : text_eq (bundle_signing_key_path toy_floats config) with_run.tmp ≡ false
unfolding bundle_signing_key_path join with_defaults text_eq ends_with_code
path_apart = refl

pin_bundle_signing_key_sound_example :
    PinCases os with_run
      (bundle_signing_key_path toy_floats config)
      none
      sent_key
      start
      (pin_bundle_signing_key toy_floats os with_run config sent_key start).0
      true
unfolding with_defaults
pin_bundle_signing_key_sound_example =
    pin_bundle_signing_key_sound toy_floats os with_run config sent_key start true path_apart pinned
