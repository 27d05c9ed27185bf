-- ===== src/Bundle/Render/KeyLine.antt =====
-- A rendered key line is read back as the key that `sshd` is to trust.
use mayfly_agent.Text.Chars.{
  text_eq, Text, codes, is_control, is_whitespace, is_ascii_graphic, starts_with_code,
}
use mayfly_agent.Ssh.TrustedCa.{
  is_allowed, CaPublicKey, is_valid_base64, is_ignored, parse_key, parse_lines,
}
use mayfly_agent.Ssh.TrustedCa.RoundTrip.{
  any_control-key_line, trim-key_line, IsField, key_line, parse_key-key_line,
}
use mayfly_agent.Text.Words.{
  is_item, split_whitespace, split_whitespace-none, split_whitespace-items, is_word,
}
use mayfly_agent.Prelude.{
  ◌≡◌, refl, inl, inr, true, false, not, ◌||◌, some, List, [], ◌∷◌, arith, Option-cases, any, All,
}
use mayfly_agent.Text.Lines.{is_line_end}
use mayfly_agent.Result.{ok}
use mayfly_agent.Crates.{Crates, SshPublicKey}
use mayfly_agent.Identity.Keypair.{validate_ed25519_public_key}
use mayfly_agent.Bundle.Types.{CaBundleKey}
use mayfly_agent.Bundle.Validate.{validate_key_id, validate_keys}
use mayfly_agent.Bundle.Render.{algorithm_of, blob_of, comment_of, render_key_line}

-- What `from_openssh` guarantees of a line that it reads as an Ed25519 key: the first field is the
-- algorithm's name, and the second one is base64.
abbrev pub ReadsOpensshLines : Crates → Type 0
ReadsOpensshLines lib =
    (s : Text) (key : SshPublicKey)
    → lib.from_openssh s ≡ some key
    → key.is_ed25519 ≡ true
    → (algorithm_of (split_whitespace s) ≡ codes "ssh-ed25519")
      × (is_valid_base64 (blob_of (split_whitespace s)) ≡ true)

-- A key that passed the checks of `from_response`.
pub record IsPublishable (key : CaBundleKey) : Type 0 where
  pub algorithm : algorithm_of (split_whitespace key.public_key) ≡ codes "ssh-ed25519"
  pub blob : is_valid_base64 (blob_of (split_whitespace key.public_key)) ≡ true
  pub clean : any is_control key.public_key ≡ false
  pub id_word : is_word key.key_id ≡ true
  pub id_clean : any is_control key.key_id ≡ false

id_plain :
    (s : Text)
    → any (λ c. is_whitespace c || is_control c || not (is_ascii_graphic c)) s ≡ false
    → (is_word s ≡ true) × (any is_control s ≡ false)
id_plain [] h = (refl, refl)
id_plain (c ∷ s) h = ground (arith, id_plain s)

validate_key_id-plain :
    (s : Text) → validate_key_id s ≡ ok tt → (is_word s ≡ true) × (any is_control s ≡ false)
unfolding validate_key_id
validate_key_id-plain s h = id_plain s (ground arith)

validate_keys_gates :
    (lib : Crates) (key : CaBundleKey) (keys : List CaBundleKey)
    → validate_keys lib (key ∷ keys) ≡ ok tt
    → (validate_key_id key.key_id ≡ ok tt)
      × (validate_ed25519_public_key lib key.public_key ≡ ok tt)
      × (validate_keys lib keys ≡ ok tt)
unfolding validate_keys
validate_keys_gates lib key keys h = ground arith

module _ (lib : Crates) (reads : ReadsOpensshLines lib) where
  valid-IsPublishable :
      (key : CaBundleKey)
      → validate_key_id key.key_id ≡ ok tt
      → validate_ed25519_public_key lib key.public_key ≡ ok tt
      → IsPublishable key
  unfolding validate_ed25519_public_key
  valid-IsPublishable key hid hkey = elim (Option-cases (lib.from_openssh key.public_key)) [
    | inl unread ↦ absurd (ground arith)
    | inr (parsed, read) ↦
        let (algorithm, blob) = reads key.public_key parsed read (ground arith) in
        let (word, clean) = validate_key_id-plain key.key_id hid in
        record {
          algorithm = algorithm;
          blob = blob;
          clean = ground arith;
          id_word = word;
          id_clean = clean;
        }
  ]

  pub validate_keys-IsPublishable :
      (keys : List CaBundleKey) → validate_keys lib keys ≡ ok tt → All IsPublishable keys
  validate_keys-IsPublishable [] h = tt
  validate_keys-IsPublishable (key ∷ keys) h =
      let (id, public_key, later) = validate_keys_gates lib key keys h in
      (valid-IsPublishable key id public_key, validate_keys-IsPublishable keys later)

-- The key that `sshd` is to trust for a key of the bundle.
abbrev pub trusted_key : CaBundleKey → CaPublicKey
trusted_key key = record {
  algorithm = codes "ssh-ed25519";
  key_data = blob_of (split_whitespace key.public_key);
  comment = some (comment_of key.key_id);
}

-- A blob that is not empty is the second item of the line.
item-IsField : (w : Text) → is_item w ≡ true → any is_control w ≡ false → IsField w
item-IsField [] h k = cc
item-IsField (c ∷ w) h k = (h, k)

IsField-clean : (w : Text) → IsField w → any is_control w ≡ false
IsField-clean [] f = absurd f
IsField-clean (c ∷ w) f = f.1

blob_of-IsField :
    (ws : List Text)
    → All (λ w. is_item w ≡ true) ws
    → All (λ w. any is_control w ≡ false) ws
    → is_valid_base64 (blob_of ws) ≡ true
    → IsField (blob_of ws)
unfolding blob_of is_valid_base64
blob_of-IsField [] items clean h = cc
blob_of-IsField (a ∷ []) items clean h = cc
blob_of-IsField (a ∷ b ∷ more) items clean h = item-IsField b items.1.0 clean.1.0

comment_of-IsField :
    (s : Text) → is_word s ≡ true → any is_control s ≡ false → IsField (comment_of s)
unfolding is_whitespace is_control
comment_of-IsField s h k = (h, k)

no_line_end : (s : Text) → any is_control s ≡ false → any is_line_end s ≡ false
unfolding is_control
no_line_end [] h = refl
no_line_end (c ∷ s) h = ground (arith, no_line_end s)

module _ (key : CaBundleKey) (p : IsPublishable key) where
  blob-IsField : IsField (blob_of (split_whitespace key.public_key))
  blob-IsField =
      blob_of-IsField (split_whitespace key.public_key) (split_whitespace-items key.public_key)
        (split_whitespace-none is_control key.public_key p.clean) p.blob

  algorithm-IsField : IsField (codes "ssh-ed25519")
  unfolding is_whitespace is_control
  algorithm-IsField = (refl, refl)

  note-IsField : IsField (comment_of key.key_id)
  note-IsField = comment_of-IsField key.key_id p.id_word p.id_clean

  pub line_of : Text
  line_of =
      key_line (codes "ssh-ed25519") (blob_of (split_whitespace key.public_key))
        (comment_of key.key_id)

  pub render_key_line-eq : render_key_line key ≡ line_of
  unfolding render_key_line line_of
  render_key_line-eq = rw p.algorithm

  line_of-kept : is_ignored line_of ≡ false
  unfolding line_of is_ignored starts_with_code
  line_of-kept = rw (trim-key_line _ _ _ algorithm-IsField blob-IsField note-IsField) refl

  line_of-parsed : parse_key line_of ≡ ok (trusted_key key)
  unfolding line_of is_allowed text_eq
  line_of-parsed = parse_key-key_line _ _ _ algorithm-IsField blob-IsField note-IsField refl p.blob

  pub line_of-one_line : any is_line_end line_of ≡ false
  unfolding line_of is_whitespace is_control
  line_of-one_line = no_line_end line_of (
      any_control-key_line (codes "ssh-ed25519") (blob_of (split_whitespace key.public_key))
        (comment_of key.key_id) refl
        (IsField-clean (blob_of (split_whitespace key.public_key)) blob-IsField) p.id_clean)

  pub parse_first :
      (rest : List Text) (keys : List CaPublicKey)
      → parse_lines rest ≡ ok keys
      → parse_lines (line_of ∷ rest) ≡ ok (trusted_key key ∷ keys)
  unfolding parse_lines
  parse_first rest keys h = rw (line_of-kept, line_of-parsed, h) refl
