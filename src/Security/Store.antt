-- ===== src/Security/Store.antt =====
-- The file system as the other modules use it: a computation passes through states, reads the
-- present one and ends with a result.
use mayfly_agent.Security.{directory, file, is_symlink_kind, Disk, Kind, Entry}
use mayfly_agent.Text.Utf8.{from_utf8}
use mayfly_agent.Result.{err, ok, ok_or, Result}
use mayfly_agent.Errors.{io, Error}
use mayfly_agent.Text.Chars.{Bytes, Text}
use mayfly_agent.Security.Write.{History}
use mayfly_agent.Prelude.{ℕ, Bool, true, false, not, ◌&&◌, Option, none, some, if◌then◌else◌}

-- What the agent asks the operating system beside what is under a name: its effective user, which
-- files can be read, and what a symbolic link leads to.
pub record Os : Type 0 where
  pub effective_uid : ℕ
  pub readable : Text → Bool
  pub link_target : Text → Option Entry

abbrev pub Store : Type 0 → Type 0
Store A = History → History × Result Error A

unfoldable pub and_then :
    {A B : Type 0} → History × Result Error A → (A → Store B) → History × Result Error B
and_then (h, ok a) f = f a h
and_then (h, err e) f = (h, err e)

infixl 5 ◌>>=◌ ◌>>◌
abbrev pub ◌>>=◌ : {A B : Type 0} → Store A → (A → Store B) → Store B
m >>= f = λ h. and_then (m h) f

abbrev pub ◌>>◌ : {A B : Type 0} → Store A → Store B → Store B
m >> k = λ h. and_then (m h) (λ _. k)

abbrev pub pure : {A : Type 0} → Result Error A → Store A
pure r h = (h, r)

-- A read of the present state.
abbrev pub reading : {A : Type 0} → (Disk → Result Error A) → Store A
reading f h = (h, f h.present)

-- What a path leads to, a symbolic link followed.
abbrev pub followed_link : Os → Text → Option Entry → Option Entry
followed_link os path none = none
followed_link os path (some e) = if is_symlink_kind e.kind then os.link_target path else some e

abbrev pub is_regular : Kind → Bool
is_regular file = true
is_regular _ = false

abbrev pub is_file_entry : Option Entry → Bool
is_file_entry none = false
is_file_entry (some e) = is_regular e.kind

-- `Path::is_file`: errors count as `false`.
unfoldable pub is_file : Os → Disk → Text → Bool
is_file os disk path =
    not (disk.unreadable path) && is_file_entry (followed_link os path (disk.lookup path))

abbrev pub read_entry : Option Entry → Result Error Bytes
read_entry none = err io
read_entry (some e) = if is_regular e.kind then ok e.content else err io

-- `std::fs::read`.
unfoldable pub read_file : Os → Text → Disk → Result Error Bytes
read_file os path disk =
    if os.readable path then read_entry (followed_link os path (disk.lookup path)) else err io

abbrev pub read_utf8 : Result Error Bytes → Result Error Text
read_utf8 (err e) = err e
read_utf8 (ok bytes) = ok_or io (from_utf8 bytes)

-- `std::fs::read_to_string`.
unfoldable pub read_to_string : Os → Text → Disk → Result Error Text
read_to_string os path disk = read_utf8 (read_file os path disk)

abbrev pub is_directory : Kind → Bool
is_directory directory = true
is_directory _ = false

abbrev pub is_dir_entry : Option Entry → Bool
is_dir_entry none = false
is_dir_entry (some e) = is_directory e.kind

-- `Path::is_dir`.
unfoldable pub is_dir : Os → Disk → Text → Bool
is_dir os disk path =
    not (disk.unreadable path) && is_dir_entry (followed_link os path (disk.lookup path))
