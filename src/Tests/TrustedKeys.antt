-- ===== src/Tests/TrustedKeys.antt =====
-- Instances of the theorems on the `TrustedUserCAKeys` file.
use mayfly_agent.Ssh.TrustedCa.RoundTrip.{parse_key-key_line, key_line, IsField}
use mayfly_agent.Ssh.TrustedCa.Sound.{parse_sound, entries, IsTrusted}
use mayfly_agent.Result.{ok}
use mayfly_agent.Text.Chars.{
  codes, Text, is_whitespace, strip_prefix, text_eq, is_control, is_ascii_alphanumeric,
  starts_with_code,
}
use mayfly_agent.Ssh.TrustedCa.{
  is_valid_base64, parse, CaPublicKey, parse_key, collect_comment, is_allowed, is_base64_char,
  trailing_padding, check_bytes,
}
use mayfly_agent.Text.Utf8.{as_bytes}
use mayfly_agent.Text.Words.{split_whitespace}
use mayfly_agent.Text.Trim.{trim_end, trim, trim_start}
use mayfly_agent.Text.Lines.{lines}
use mayfly_agent.Prelude.{◌≡◌, refl, true, some, [], ◌∷◌, length, All}

abbrev trusted_a : CaPublicKey
trusted_a = record {
  algorithm = codes "ssh-ed25519";
  key_data = codes "AAAA";
  comment = some (codes "ops@host");
}

abbrev file : Text
file = codes "# managed\n\n ssh-ed25519 AAAA ops@host\n"

file_parsed : parse file ≡ ok (trusted_a ∷ [])
unfolding parse is_allowed lines is_whitespace is_control trim trim_start trim_end split_whitespace
    text_eq is_valid_base64 as_bytes is_base64_char is_ascii_alphanumeric trailing_padding
    check_bytes collect_comment strip_prefix starts_with_code
file_parsed = refl

parse_sound_example :
    All IsTrusted (trusted_a ∷ []) × (length (trusted_a ∷ []) ≡ entries (lines file))
parse_sound_example = parse_sound file (trusted_a ∷ []) file_parsed

blob_valid : is_valid_base64 (codes "AAA=") ≡ true
unfolding is_valid_base64 as_bytes is_base64_char is_ascii_alphanumeric trailing_padding check_bytes
blob_valid = refl

algorithm_allowed : is_allowed (codes "ssh-rsa") ≡ true
unfolding is_allowed text_eq
algorithm_allowed = refl

IsField-algorithm : IsField (codes "ssh-rsa")
unfolding is_whitespace is_control
IsField-algorithm = (refl, refl)

IsField-blob : IsField (codes "AAA=")
unfolding is_whitespace is_control
IsField-blob = (refl, refl)

IsField-comment : IsField (codes "ops@host")
unfolding is_whitespace is_control
IsField-comment = (refl, refl)

parse_key-key_line_example :
    parse_key (key_line (codes "ssh-rsa") (codes "AAA=") (codes "ops@host"))
    ≡ ok (record {
      algorithm = codes "ssh-rsa";
      key_data = codes "AAA=";
      comment = some (codes "ops@host");
    })
parse_key-key_line_example =
    parse_key-key_line (codes "ssh-rsa") (codes "AAA=") (codes "ops@host") IsField-algorithm
      IsField-blob IsField-comment algorithm_allowed blob_valid
