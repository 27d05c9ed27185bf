-- ===== src/Security.antt =====
-- src/security.rs: the file system, and the checks and the atomic write on it.
pub mod Write
use mayfly_agent.Errors.{unexpected_symlink, insecure_permissions, insecure_ownership, io, Error}
use mayfly_agent.Result.{ok_or, reject_if, ok, err, ◌>>=◌, ◌>>◌, Result}
use Prim.Native.Nat.{bit_and}
pub mod Leads
pub mod Atomic
pub mod Fate
pub mod Store
pub mod Frame
pub mod Contents
pub mod Lands
pub mod Modes
pub mod Keeps
use mayfly_agent.Prelude.{ℕ, ◌-◌, Bool, true, false, not, Option, none, some, ◌==◌, if◌then◌else◌}
use mayfly_agent.Text.Chars.{Text, Bytes, text_eq}

abbrev pub mode_secret : ℕ
mode_secret = 0x180

abbrev pub mode_public : ℕ
mode_public = 0x1a4

abbrev pub mode_dir : ℕ
mode_dir = 0x1c0

abbrev pub group_or_other_writable : ℕ
group_or_other_writable = 0x12

pub data Kind : Type 0 where
  file directory symlink : Kind

-- What `lstat` and `read` see under a name.
pub record Entry : Type 0 where
  pub kind : Kind
  pub uid : ℕ
  pub mode : ℕ
  pub content : Bytes

-- The file system: the entry under each path, and the paths whose metadata cannot be read.
pub record Disk : Type 0 where
  pub lookup : Text → Option Entry
  pub unreadable : Text → Bool

abbrev pub set : Text → Option Entry → Disk → Disk
set path entry disk = record disk { lookup = λ p. if text_eq p path then entry else disk.lookup p }

-- `std::fs::symlink_metadata`, `none` where there is no such entry.
unfoldable pub symlink_metadata : Disk → Text → Result Error (Option Entry)
symlink_metadata disk path = if disk.unreadable path then err io else ok (disk.lookup path)

abbrev pub is_symlink_kind : Kind → Bool
is_symlink_kind symlink = true
is_symlink_kind _ = false

abbrev pub entry_is_symlink : Option Entry → Bool
entry_is_symlink none = false
entry_is_symlink (some e) = is_symlink_kind e.kind

unfoldable pub is_symlink : Disk → Text → Result Error Bool
is_symlink disk path = do meta ← symlink_metadata disk path; ok (entry_is_symlink meta)

unfoldable pub ensure_not_symlink : Disk → Text → Result Error (Unit {0})
ensure_not_symlink disk path = do
  link ← is_symlink disk path
  reject_if link unexpected_symlink
  ok tt

-- The metadata of an entry that must exist.
unfoldable pub metadata : Disk → Text → Result Error Entry
metadata disk path = do meta ← symlink_metadata disk path; ok_or io meta

unfoldable pub validate_owner : Disk → Text → ℕ → Result Error (Unit {0})
validate_owner disk path expected_uid = do
  meta ← metadata disk path
  reject_if (not (meta.uid == expected_uid)) insecure_ownership
  ok tt

abbrev pub permission_bits : Entry → ℕ
permission_bits e = bit_and e.mode 0x1ff

unfoldable pub ensure_not_group_or_world_writable : Disk → Text → Result Error (Unit {0})
ensure_not_group_or_world_writable disk path = do
  meta ← metadata disk path
  reject_if (not (bit_and (permission_bits meta) group_or_other_writable == 0)) insecure_permissions
  ok tt

-- `!w` on a u32.
abbrev pub complement : ℕ → ℕ
complement w = 4_294_967_295 - w

unfoldable pub validate_mode_at_most : Disk → Text → ℕ → Result Error (Unit {0})
validate_mode_at_most disk path allowed_mode = do
  meta ← metadata disk path
  reject_if (not (bit_and (permission_bits meta) (complement (bit_and allowed_mode 0x1ff)) == 0))
      insecure_permissions
  ok tt
