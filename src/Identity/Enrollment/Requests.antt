-- ===== src/Identity/Enrollment/Requests.antt =====
-- src/identity/enrollment.rs: the enrollment service and the request it sends. A value of `Outside`
-- holds what it meets outside: the crates, the build's constants, the clock, and how each of its
-- three writes goes.
use mayfly_agent.Result.{ok, ◌>>=◌, ◌>>◌, Result, is_ok}
use mayfly_agent.Security.{
  mode_secret, validate_mode_at_most, ensure_not_group_or_world_writable, validate_owner,
  ensure_not_symlink, metadata, Disk,
}
use mayfly_agent.Identity.Keypair.{
  validate_ed25519_public_key, public_key_openssh, PrivateKeys, MachineKeypair,
}
use mayfly_agent.Identity.Enrollment.{
  validate_hostname, validate_token, EnrollmentRequest, machine_record_file, public_key_file,
  private_key_file,
}
use mayfly_agent.Security.Write.{Run}
use mayfly_agent.Crates.{Instant, Crates}
use mayfly_agent.Security.Store.{Os, is_file}
use mayfly_agent.Identity.Machine.{RecordFormat}
use mayfly_agent.Errors.{Error}
use mayfly_agent.Text.Chars.{ends_with_code, Text}
use mayfly_agent.Prelude.{Bool, ◌||◌, ◌∷◌, ◌++◌, if◌then◌else◌, is_empty}

pub record Outside : Type 0 where
  pub lib : Crates
  pub keys : PrivateKeys
  pub format : RecordFormat
  pub os : Os
  pub os_name : Text
  pub arch : Text
  pub version : Text
  pub now : Instant
  pub private_run : Run
  pub public_run : Run
  pub record_run : Run

pub record EnrollmentService : Type 0 where
  pub private_key_path : Text
  pub public_key_path : Text
  pub record_path : Text

-- `Path::join` of a relative name.
unfoldable pub join : Text → Text → Text
join dir name = if is_empty dir || ends_with_code b'/' dir then dir ++ name else dir ++ b'/' ∷ name

unfoldable pub new_service : Text → EnrollmentService
new_service dir = record {
  private_key_path = join dir private_key_file;
  public_key_path = join dir public_key_file;
  record_path = join dir machine_record_file;
}

unfoldable pub is_enrolled : Outside → EnrollmentService → Disk → Bool
is_enrolled out service disk = is_file out.os disk service.record_path

unfoldable pub path_exists : Text → Disk → Bool
path_exists path disk = is_ok (metadata disk path)

unfoldable pub validate_private_key_security :
    Outside → EnrollmentService → Disk → Result Error (Unit {0})
validate_private_key_security out service disk = do
  ensure_not_symlink disk service.private_key_path
  validate_owner disk service.private_key_path out.os.effective_uid
  ensure_not_group_or_world_writable disk service.private_key_path
  validate_mode_at_most disk service.private_key_path mode_secret

unfoldable pub create_enrollment_request :
    Outside → Text → Text → MachineKeypair → Result Error EnrollmentRequest
create_enrollment_request out token hostname keypair = do
  validate_token token
  validate_hostname hostname
  public_key ← public_key_openssh out.keys keypair
  validate_ed25519_public_key out.lib public_key
  ok (record {
    enrollment_token = token;
    hostname = hostname;
    os = out.os_name;
    arch = out.arch;
    agent_version = out.version;
    public_key = public_key;
  })
