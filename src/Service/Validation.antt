-- ===== src/Service/Validation.antt =====
-- src/service/validation.rs: the checks at startup. The file system is that of Security; how a helper
-- with a given token answers, and whether systemd runs, is given.
pub mod Startup
use mayfly_agent.Security.Store.{is_dir, followed_link, read_to_string, Os}
use mayfly_agent.Errors.{io, config_invalid, Error}
use mayfly_agent.Ssh.SshdConfig.{dropin_dir, includes_dropin_dir}
use mayfly_agent.Text.Trim.{trim}
use mayfly_agent.Text.Utf8.{from_utf8}
use mayfly_agent.Ipc.Client.{ping_helper, HelperClient}
use mayfly_agent.Config.{Config}
use mayfly_agent.Service.RuntimeState.{read_optional_file}
use mayfly_agent.Result.{ok, err, Result}
use mayfly_agent.Text.Chars.{Bytes, Text, codes}
use mayfly_agent.Security.{directory, Disk, Entry, Kind}
use mayfly_agent.Crates.{Crates}
use mayfly_agent.Float.{Floats}
use mayfly_agent.Config.Validate.{validate}
use mayfly_agent.Prelude.{
  String, Bool, true, false, not, Option, none, some, List, [], ◌∷◌, ◌++◌, if◌then◌else◌, is_empty,
  any,
}

pub data Severity : Type 0 where
  fine warn_only fatal : Severity

pub record Check : Type 0 where
  pub name : Text
  pub severity : Severity
  pub detail : Option Text

abbrev pub check_ok_of : String → Check
check_ok_of name = record { name = codes name; severity = fine; detail = none }

abbrev pub check_warn : String → String → Check
check_warn name detail = record {
  name = codes name;
  severity = warn_only;
  detail = some (codes detail);
}

abbrev pub check_fail : String → String → Check
check_fail name detail = record {
  name = codes name;
  severity = fatal;
  detail = some (codes detail);
}

abbrev pub is_fail : Severity → Bool
is_fail fatal = true
is_fail _ = false

-- The checks of a `ValidationReport`, in the order in which they ran.
abbrev pub ValidationReport : Type 0
ValidationReport = List Check

unfoldable pub has_failures : ValidationReport → Bool
has_failures checks = any (λ c. is_fail c.severity) checks

unfoldable pub failed_names : ValidationReport → List Text
failed_names [] = []
failed_names (c ∷ checks) =
    let rest = failed_names checks in if is_fail c.severity then c.name ∷ rest else rest

-- `join(", ")`.
abbrev pub join_names : List Text → Text
join_names [] = []
join_names (name ∷ []) = name
join_names (name ∷ next ∷ names) = name ++ codes ", " ++ join_names (next ∷ names)

abbrev pub result_of_names : List Text → Result Error (Unit {0})
result_of_names [] = ok tt
result_of_names (name ∷ names) =
    err (config_invalid (codes "startup validation failed: " ++ join_names (name ∷ names)))

unfoldable pub into_result : ValidationReport → Result Error (Unit {0})
into_result checks = result_of_names (failed_names checks)

abbrev pub dir_check : Os → Disk → String → Text → Severity → String → Check
dir_check os disk name path missing detail =
    if is_dir os disk path
    then check_ok_of name
    else record { name = codes name; severity = missing; detail = some (codes detail) }

abbrev pub nonempty_text : Result Error (Option Bytes) → Result Error Bool
nonempty_text (err e) = err e
nonempty_text (ok none) = ok false
nonempty_text (ok (some bytes)) = elim (from_utf8 bytes) [
  | none ↦ err io
  | some text ↦ ok (not (is_empty (trim text)))
]

unfoldable pub read_nonempty : Os → Text → Disk → Result Error Bool
read_nonempty os path disk = nonempty_text (read_optional_file os path disk)

abbrev pub token_check : Result Error Bool → Check
token_check (ok true) = check_ok_of "helper_token"
token_check (ok false) = check_warn "helper_token" "helper token file is empty"
token_check (err e) = check_warn "helper_token" "helper token file is unreadable"

abbrev pub pinged : Result Error Text → Check
pinged (ok version) = check_ok_of "helper"
pinged (err e) = check_warn "helper" "helper is not reachable"

abbrev pub helper_with : (Text → HelperClient) → Result Error Text → Check
helper_with helper (err e) = check_warn "helper" "helper token unavailable"
helper_with helper (ok contents) = pinged (ping_helper (helper (trim contents)))

unfoldable pub helper_check : Os → (Text → HelperClient) → Text → Disk → Check
helper_check os helper token_path disk = helper_with helper (read_to_string os token_path disk)

abbrev pub sshd_text_check : Result Error Text → Check
sshd_text_check (err e) = check_warn "ssh_compatibility" "sshd_config is unreadable"
sshd_text_check (ok text) =
    if includes_dropin_dir text dropin_dir
    then check_ok_of "ssh_compatibility"
    else check_warn "ssh_compatibility" "sshd_config does not Include the drop-in directory"

unfoldable pub ssh_compat_check : Os → Disk → Check
ssh_compat_check os disk = sshd_text_check (read_to_string os (codes "/etc/ssh/sshd_config") disk)

abbrev pub config_check : Result Error (Unit {0}) → Check
config_check (ok u) = check_ok_of "configuration"
config_check (err e) = check_fail "configuration" "configuration is invalid"

abbrev pub systemd_check : Bool → Check
systemd_check true = check_ok_of "systemd"
systemd_check false = check_warn "systemd" "host is not systemd-managed"

unfoldable pub validate_startup :
    (fl : Floats) → Crates → Os → (Text → HelperClient) → Bool → Config fl → Disk → ValidationReport
validate_startup fl lib os helper is_systemd config disk =
    config_check (validate fl lib config)
    ∷ dir_check os disk "identity" config.identity_dir fatal "identity directory is missing"
    ∷ dir_check os disk "state_dir" config.state_dir warn_only "state directory is missing"
    ∷ token_check (read_nonempty os config.helper_token_path disk)
    ∷ helper_check os helper config.helper_token_path disk
    ∷ systemd_check is_systemd
    ∷ ssh_compat_check os disk
    ∷ []
