-- ===== src/Security/Modes.antt =====
-- What the checks of security.rs admit.
use mayfly_agent.Security.{
  complement, is_symlink_kind, permission_bits, Entry, Disk, metadata, ensure_not_symlink,
  symlink_metadata, validate_mode_at_most, is_symlink, validate_owner,
}
use mayfly_agent.Errors.{io}
use mayfly_agent.Result.{first_ok, ok_or-eq-ok, ok}
use mayfly_agent.Text.Chars.{Text}
use Prim.Native.Nat.{bit_and}
use mayfly_agent.Prelude.{ℕ, ◌≡◌, inl, inr, false, some, arith, Bool-cases}

-- What `metadata` returns stands under the path.
pub metadata-eq :
    (disk : Disk) (path : Text) (e : Entry) → metadata disk path ≡ ok e → disk.lookup path ≡ some e
unfolding metadata symlink_metadata
metadata-eq disk path e h = elim (Bool-cases (disk.unreadable path)) [
  | inl u ↦ absurd (ground arith)
  | inr u ↦ ok_or-eq-ok io (disk.lookup path) (ground arith)
]

-- A name that is not a symbolic link, under which something stands, is a file or a directory.
pub ensure_not_symlink-eq :
    (disk : Disk) (path : Text) (e : Entry)
    → ensure_not_symlink disk path ≡ ok tt
    → disk.lookup path ≡ some e
    → is_symlink_kind e.kind ≡ false
unfolding ensure_not_symlink is_symlink symlink_metadata
ensure_not_symlink-eq disk path e h found = ground arith

pub validate_owner-eq :
    (disk : Disk) (path : Text) (uid : ℕ)
    → validate_owner disk path uid ≡ ok tt
    → (e : Entry) × (disk.lookup path ≡ some e) × (e.uid ≡ uid)
unfolding validate_owner
validate_owner-eq disk path uid h =
    let (e, (k, m)) = first_ok (metadata disk path) _ h in
    (e, metadata-eq disk path e m, ground arith)

-- The permission bits of a file that passed are among the allowed ones.
pub validate_mode_at_most-eq :
    (disk : Disk) (path : Text) (allowed : ℕ)
    → validate_mode_at_most disk path allowed ≡ ok tt
    → (e : Entry) × (disk.lookup path ≡ some e)
      × (bit_and (permission_bits e) (complement (bit_and allowed 0x1ff)) ≡ 0)
unfolding validate_mode_at_most
validate_mode_at_most-eq disk path allowed h =
    let (e, (k, m)) = first_ok (metadata disk path) _ h in
    (e, metadata-eq disk path e m, ground arith)
