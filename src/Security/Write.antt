-- ===== src/Security/Write.antt =====
-- src/security.rs: `secure_write` and `atomic_replace`, as the sequence of states that the file
-- system passes through.
use mayfly_agent.Errors.{invalid_path, io, Error}
use mayfly_agent.Result.{err, Result, ok}
use mayfly_agent.Text.Trim.{trim_end_matches}
use mayfly_agent.Prelude.{
  ℕ, Bool, true, false, Option, none, some, List, [], ◌∷◌, ◌==◌, if◌then◌else◌, is_empty, take,
}
use mayfly_agent.Text.Chars.{Text, Bytes}
use mayfly_agent.Security.{Disk, Entry, set, file}

-- `Path::parent` of a path without `.` components: what stands before the last component.
before_slash : Text → Option Text
before_slash [] = none
before_slash (c ∷ s) =
    let rest = before_slash s in
    elim rest [ some dir ↦ some (c ∷ dir) | none ↦ (if c == b'/' then some [] else none) ]

abbrev pub or_root : Text → Text
or_root [] = b'/' ∷ []
or_root (c ∷ s) = c ∷ s

unfoldable pub parent : Text → Option Text
unfolding before_slash
parent path =
    let trimmed = trim_end_matches b'/' path in
    if is_empty trimmed then none else elim (before_slash trimmed) [
      | none ↦ some []
      | some dir ↦ some (or_root (trim_end_matches b'/' dir))
    ]

abbrev pub nonempty_parent : Option Text → Result Error Text
nonempty_parent none = err invalid_path
nonempty_parent (some dir) = if is_empty dir then err invalid_path else ok dir

unfoldable pub parent_of : Text → Result Error Text
unfolding parent
parent_of path = nonempty_parent (parent path)

-- Which system calls succeed, the name of the temporary file, who owns it, and how many bytes a
-- write leaves that fails.
pub record Run : Type 0 where
  pub tmp : Text
  pub uid : ℕ
  pub created : Bool
  pub chmodded : Bool
  pub wrote : Bool
  pub partial : ℕ
  pub synced : Bool
  pub kept : Bool
  pub renamed : Bool
  pub dir_synced : Bool

-- The states, the present one apart and the last one first.
pub record History : Type 0 where
  pub present : Disk
  pub past : List Disk

abbrev pub Act : Type 0
Act = History → History × Result Error (Unit {0})

abbrev pub advance : Disk → History → History
advance disk h = record { present = disk; past = h.present ∷ h.past }

-- A system call: it changes the file system, or fails and changes nothing.
abbrev pub syscall : Bool → (Disk → Disk) → Act
syscall true f h = (advance (f h.present) h, ok tt)
syscall false f h = (h, err io)

abbrev pub next_act : History × Result Error (Unit {0}) → Act → History × Result Error (Unit {0})
next_act (h, ok a) k = k h
next_act (h, err e) k = (h, err e)

infixl 5 ◌>>◌
abbrev pub ◌>>◌ : Act → Act → Act
m >> k = λ h. next_act (m h) k

abbrev pub new_file : ℕ → ℕ → Bytes → Option Entry
new_file uid mode content = some (record { kind = file; uid = uid; mode = mode; content = content })

-- `write_all`: where it fails, a part of the bytes has been written.
unfoldable pub write_contents : Run → ℕ → Bytes → Act
write_contents run mode contents h =
    if run.wrote
    then (advance (set run.tmp (new_file run.uid mode contents) h.present) h, ok tt)
    else (
      advance (set run.tmp (new_file run.uid mode (take run.partial contents)) h.present) h,
      err io,
    )

-- Until `keep`, a temporary file is deleted when its handle is dropped.
abbrev pub delete_on_error :
    Text → History × Result Error (Unit {0}) → History × Result Error (Unit {0})
delete_on_error tmp (h, ok a) = (h, ok a)
delete_on_error tmp (h, err e) = (advance (set tmp none h.present) h, err e)

-- `rename`: the entry under `src` moves to `dst`.
abbrev pub move : Text → Text → Disk → Disk
move src dst disk = set src none (set dst (disk.lookup src) disk)

abbrev pub check_parent : Text → Act
check_parent path h = (h, map_ok (parent_of path))
  where
    map_ok : Result Error Text → Result Error (Unit {0})
    map_ok (ok a) = ok tt
    map_ok (err e) = err e

unfoldable pub atomic_replace : Run → Text → Act
atomic_replace run dst =
    check_parent dst
    >> syscall run.renamed (move run.tmp dst)
    >> syscall run.dir_synced (λ disk. disk)

-- What is done to the temporary file once it exists.
unfoldable pub fill : Run → Bytes → ℕ → Act
fill run contents mode =
    syscall run.chmodded (set run.tmp (new_file run.uid mode []))
    >> write_contents run mode contents
    >> syscall run.synced (λ disk. disk)
    >> syscall run.kept (λ disk. disk)

unfoldable pub secure_write : Run → Text → Bytes → ℕ → Act
secure_write run path contents mode =
    check_parent path
    >> syscall run.created (set run.tmp (new_file run.uid 0x180 []))
    >> (λ h. delete_on_error run.tmp (fill run contents mode h))
    >> atomic_replace run path
