-- ===== src/Service/RuntimeState.antt =====
-- src/service/runtime_state.rs: the runtime status file, the generation on disk and the pin of the
-- enrollment, over the file system of Security.
pub mod Pin
use mayfly_agent.Security.Store.{
  is_directory, is_regular, reading, followed_link, pure, Store, Os, ◌>>=◌, ◌>>◌,
}
use mayfly_agent.Security.{mode_dir, ensure_not_symlink, set, directory, mode_public, Disk, Entry}
use mayfly_agent.Security.Write.{syscall, Act, Run, secure_write}
use mayfly_agent.Text.Decimal.{parse_u64}
use mayfly_agent.Text.Trim.{trim}
use mayfly_agent.Errors.{
  machine_record_invalid, machine_record_serialize, machine_record_parse, io, Error,
}
use mayfly_agent.Result.{ok_or, ok, err, Result}
use mayfly_agent.Text.Utf8.{as_bytes}
use mayfly_agent.Protocol.CaSync.Load.{trimmed_text}
use mayfly_agent.Config.{bundle_signing_key_path, generation_path, Config}
use mayfly_agent.Identity.Enrollment.Requests.{join}
use mayfly_agent.Text.Integer.{ℤ}
use mayfly_agent.Text.Chars.{codes, Bytes, Text}
use mayfly_agent.Float.{Floats}
use mayfly_agent.Prelude.{
  ℕ, Bool, true, false, ◌&&◌, Option, none, some, [], ◌∷◌, ◌++◌, if◌then◌else◌,
}

abbrev pub runtime_status_file : Text
runtime_status_file = codes "runtime_status.json"

pub record RuntimeStatus : Type 0 where
  pub agent_version : Text
  pub machine_id : Text
  pub started_at_unix : ℤ
  pub last_heartbeat_unix : Option ℤ
  pub last_heartbeat_ok : Option Bool
  pub last_sync_unix : Option ℤ
  pub last_sync_outcome : Option Text
  pub current_generation : ℕ
  pub clean_shutdown : Bool

-- serde_json on the status.
pub record StatusFormat : Type 0 where
  pub to_vec_pretty : RuntimeStatus → Option Bytes
  pub from_slice : Bytes → Option RuntimeStatus

-- `create_dir_all`, where it succeeds: a directory stands under the path, the one that was there or
-- a new one.
abbrev pub created_dir : ℕ → Option Entry → Option Entry
created_dir uid (some e) = some e
created_dir uid none = some (record { kind = directory; uid = uid; mode = 0x1ff; content = [] })

abbrev pub chmod_entry : ℕ → Option Entry → Option Entry
chmod_entry mode none = none
chmod_entry mode (some e) = some (record e { mode = mode })

-- Another kind of entry under the path makes `create_dir_all` fail.
abbrev pub may_be_dir : Option Entry → Bool
may_be_dir none = true
may_be_dir (some e) = is_directory e.kind

abbrev pub create_dir_all : Os → Bool → Text → Act
create_dir_all os created dir h =
    syscall (created && may_be_dir (followed_link os dir (h.present.lookup dir)))
      (λ disk. set dir (created_dir os.effective_uid (disk.lookup dir)) disk) h

-- Of whether the system calls of `create_dir_all` and `set_permissions` succeed.
unfoldable pub ensure_state_dir : Os → Bool → Bool → Text → Act
ensure_state_dir os created permitted dir =
    create_dir_all os created dir
    >> reading (λ disk. ensure_not_symlink disk dir)
    >> syscall permitted (λ disk. set dir (chmod_entry mode_dir (disk.lookup dir)) disk)

abbrev pub optional_content : Option Entry → Result Error (Option Bytes)
optional_content none = ok none
optional_content (some e) = if is_regular e.kind then ok (some e.content) else err io

-- `std::fs::read`, `none` where nothing is found.
unfoldable pub read_optional_file : Os → Text → Disk → Result Error (Option Bytes)
read_optional_file os path disk =
    if os.readable path then optional_content (followed_link os path (disk.lookup path)) else err io

abbrev pub parse_status :
    StatusFormat → Result Error (Option Bytes) → Result Error (Option RuntimeStatus)
parse_status format (err e) = err e
parse_status format (ok none) = ok none
parse_status format (ok (some bytes)) = elim (format.from_slice bytes) [
  | none ↦ err machine_record_parse
  | some status ↦ ok (some status)
]

abbrev pub write_status_json : Run → Text → Option Bytes → Act
write_status_json run path none h = (h, err machine_record_serialize)
write_status_json run path (some json) h = secure_write run path (json ++ 10 ∷ []) mode_public h

abbrev pub text_of : Result Error (Option Bytes) → Result Error (Option Text)
text_of (err e) = err e
text_of (ok bytes) = trimmed_text bytes

unfoldable pub read_optional_text : Os → Text → Disk → Result Error (Option Text)
read_optional_text os path disk = text_of (read_optional_file os path disk)

abbrev pub generation_or_zero : Result Error (Option Text) → Result Error ℕ
generation_or_zero (err e) = err e
generation_or_zero (ok none) = ok 0
generation_or_zero (ok (some text)) = ok_or machine_record_invalid (parse_u64 (trim text))

module _ (fl : Floats) where
  unfoldable pub status_path : Config fl → Text
  status_path config = join config.state_dir runtime_status_file

  unfoldable pub load_status :
      StatusFormat → Os → Config fl → Disk → Result Error (Option RuntimeStatus)
  load_status format os config disk =
      parse_status format (read_optional_file os (status_path config) disk)

  unfoldable pub save_status : StatusFormat → Run → RuntimeStatus → Config fl → Act
  save_status format run status config =
      write_status_json run (status_path config) (format.to_vec_pretty status)

  unfoldable pub current_generation : Os → Config fl → Disk → Result Error ℕ
  current_generation os config disk =
      generation_or_zero (read_optional_text os (generation_path fl config) disk)

  -- The write of the pin, if the file holds none.
  abbrev pub pin_if_absent : Run → Text → Text → Option Text → Store Bool
  pin_if_absent run path key (some recorded) = pure (ok false)
  pin_if_absent run path key none =
      secure_write run path (as_bytes (trim key ++ 10 ∷ [])) mode_public >> pure (ok true)

  abbrev pub pin_key : Os → Run → Text → Option Text → Store Bool
  pin_key os run path none = pure (ok false)
  pin_key os run path (some key) =
      reading (read_optional_text os path) >>= pin_if_absent run path key

  abbrev pub pin_unless_configured : Option Text → Store Bool → Store Bool
  pin_unless_configured (some configured) pin = pure (ok false)
  pin_unless_configured none pin = pin

  unfoldable pub pin_bundle_signing_key : Os → Run → Config fl → Option Text → Store Bool
  pin_bundle_signing_key os run config key =
      pin_unless_configured config.bundle_signing_public_key
        (pin_key os run (bundle_signing_key_path fl config) key)
