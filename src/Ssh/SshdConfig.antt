-- ===== src/Ssh/SshdConfig.antt =====
-- src/ssh/sshd_config.rs: whether the main configuration includes the drop-in directory.
use mayfly_agent.Prelude.{
  Bool, false, ◌||◌, Option, none, some, [], ◌∷◌, map, ◌==◌, if◌then◌else◌, is_empty, any,
}
use mayfly_agent.Text.Chars.{
  Text, codes, text_eq, is_whitespace, to_ascii_lowercase, starts_with_code,
}
use mayfly_agent.Text.Trim.{trim, trim_end_matches}
use mayfly_agent.Text.Words.{split_whitespace}
use mayfly_agent.Text.Lines.{lines}

abbrev pub dropin_dir : Text
dropin_dir = codes "/etc/ssh/sshd_config.d"

-- `split_once(char::is_whitespace)`.
split_once_whitespace : Text → Option (Text × Text)
split_once_whitespace [] = none
split_once_whitespace (c ∷ s) =
    let rest = split_once_whitespace s in
    if is_whitespace c
    then some ([], s)
    else elim rest [ none ↦ none | some (a, b) ↦ some (c ∷ a, b) ]

-- `rsplit_once('/')`, the part before the last `/`.
before_last_slash : Text → Option Text
before_last_slash [] = none
before_last_slash (c ∷ s) =
    let rest = before_last_slash s in
    elim rest [ some dir ↦ some (c ∷ dir) | none ↦ (if c == b'/' then some [] else none) ]

pattern_dir : Text → Text
pattern_dir p = elim (before_last_slash p) [ some dir ↦ dir | none ↦ p ]

eq_ignore_ascii_case : Text → Text → Bool
eq_ignore_ascii_case a b = text_eq (map to_ascii_lowercase a) (map to_ascii_lowercase b)

matches_dir : Text → Text → Bool
unfolding pattern_dir before_last_slash
matches_dir needle p = text_eq (trim_end_matches b'/' (pattern_dir p)) needle

includes_in : Text → Option (Text × Text) → Bool
includes_in needle none = false
includes_in needle (some (keyword, rest)) =
    if eq_ignore_ascii_case keyword (codes "Include")
    then any (matches_dir needle) (split_whitespace rest)
    else false

line_includes : Text → Text → Bool
unfolding includes_in split_once_whitespace eq_ignore_ascii_case matches_dir
line_includes needle line =
    let trimmed = trim line in
    if is_empty trimmed || starts_with_code b'#' trimmed
    then false
    else includes_in needle (split_once_whitespace trimmed)

unfoldable pub includes_dropin_dir : Text → Text → Bool
unfolding line_includes
includes_dropin_dir config_text dir =
    any (line_includes (trim_end_matches b'/' dir)) (lines config_text)
