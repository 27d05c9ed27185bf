-- ===== src/Ssh/TrustedCa.antt =====
-- src/ssh/trusted_ca.rs: parsing and validation of the `TrustedUserCAKeys` file.
pub mod Base64
pub mod RoundTrip
pub mod Sound
use mayfly_agent.Prelude.{
  ℕ, ◌+◌, ◌-◌, ◌%◌, Bool, true, false, not, ◌&&◌, ◌||◌, Option, none, some, List, [], ◌∷◌, ltb, leb,
  ◌==◌, if◌then◌else◌, length, is_empty, any,
}
use mayfly_agent.Text.Chars.{
  Text, Bytes, codes, text_eq, is_control, is_ascii_alphanumeric, strip_prefix, starts_with_code,
}
use mayfly_agent.Text.Trim.{trim, trim_start}
use mayfly_agent.Text.Words.{split_whitespace}
use mayfly_agent.Text.Lines.{lines}
use mayfly_agent.Text.Utf8.{as_bytes}
use mayfly_agent.Result.{Result, ok, err, ◌>>=◌, ◌>>◌, reject_if, map_err}
use mayfly_agent.Errors.{
  Error, TrustedCaError, malformed, disallowed_algorithm, invalid_encoding, illegal_character,
  invalid_trusted_ca,
}

abbrev pub allowed_algorithms : List Text
allowed_algorithms =
    codes "ssh-ed25519"
    ∷ codes "ssh-rsa"
    ∷ codes "rsa-sha2-256"
    ∷ codes "rsa-sha2-512"
    ∷ codes "ecdsa-sha2-nistp256"
    ∷ codes "ecdsa-sha2-nistp384"
    ∷ codes "ecdsa-sha2-nistp521"
    ∷ codes "sk-ssh-ed25519@openssh.com"
    ∷ codes "sk-ecdsa-sha2-nistp256@openssh.com"
    ∷ []

unfoldable pub is_allowed : Text → Bool
is_allowed algorithm = any (text_eq algorithm) allowed_algorithms

pub record CaPublicKey : Type 0 where
  pub algorithm : Text
  pub key_data : Text
  pub comment : Option Text

unfoldable pub is_base64_char : ℕ → Bool
is_base64_char b = is_ascii_alphanumeric b || b == b'+' || b == b'/'

-- `iter().rev().take_while(|b| b == b'=').count()`: how many `=` stand at the end.
unfoldable pub trailing_padding : Bytes → ℕ
trailing_padding [] = 0
trailing_padding (b ∷ s) =
    let count = trailing_padding s in if b == b'=' && count == length s then count + 1 else count

-- The loop over `bytes.iter().enumerate()`.
unfoldable pub check_bytes : ℕ → ℕ → Bytes → Bool
check_bytes body_len i [] = true
check_bytes body_len i (b ∷ s) =
    (if leb body_len i then b == b'=' else is_base64_char b) && check_bytes body_len (i + 1) s

unfoldable pub is_valid_base64 : Text → Bool
unfolding trailing_padding check_bytes
is_valid_base64 s =
    let bytes = as_bytes s in
    let padding = trailing_padding bytes in
    let body_len = length bytes - padding in
    if is_empty s || not (length bytes % 4 == 0)
    then false
    else if ltb 2 padding
    then false
    else check_bytes body_len 0 bytes && ltb 0 body_len

nonempty : Text → Option Text
nonempty [] = none
nonempty (c ∷ s) = some (c ∷ s)

-- Everything after the first two fields, if any.
unfoldable pub collect_comment : Text → Text → Text → Option Text
unfolding nonempty
collect_comment line algorithm key_data = elim (strip_prefix algorithm (trim_start line)) [
  | none ↦ none
  | some rest ↦ elim (strip_prefix key_data (trim_start rest)) [
    | none ↦ none
    | some after_key ↦ nonempty (trim after_key)
  ]
]

-- The tests on the fields, and the key.
unfoldable pub parse_fields : Text → List Text → Result TrustedCaError CaPublicKey
parse_fields trimmed [] = err malformed
parse_fields trimmed (algorithm ∷ []) = err malformed
parse_fields trimmed (algorithm ∷ key_data ∷ more) = do
  reject_if (not (is_allowed algorithm)) disallowed_algorithm
  reject_if (not (is_valid_base64 key_data)) invalid_encoding
  ok (record {
    algorithm = algorithm;
    key_data = key_data;
    comment = collect_comment trimmed algorithm key_data;
  })

unfoldable pub parse_key : Text → Result TrustedCaError CaPublicKey
unfolding parse_fields
parse_key line = do
  reject_if (any is_control line) illegal_character
  let trimmed = trim line
  reject_if (is_empty trimmed) TrustedCaError.empty
  parse_fields trimmed (split_whitespace trimmed)

unfoldable pub is_ignored : Text → Bool
is_ignored line = let trimmed = trim line in is_empty trimmed || starts_with_code b'#' trimmed

-- The loop over the lines: the first invalid entry ends it.
unfoldable pub parse_lines : List Text → Result Error (List CaPublicKey)
parse_lines [] = ok []
parse_lines (line ∷ rest) =
    let later = parse_lines rest in
    if is_ignored line
    then later
    else do key ← map_err invalid_trusted_ca (parse_key line); keys ← later; ok (key ∷ keys)

unfoldable pub parse : Text → Result Error (List CaPublicKey)
unfolding parse_lines parse_key is_ignored
parse contents = parse_lines (lines contents)
