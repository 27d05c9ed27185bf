-- ===== src/Ssh/TrustedCa/Sound.antt =====
-- What a parsed file guarantees of its keys.
use mathlib.Core.Path.{subst}
use mayfly_agent.Prelude.{
  ℕ, suc, ◌≡◌, refl, inl, inr, true, List, [], ◌∷◌, arith, if◌then◌else◌, Bool-cases, length, All,
}
use mayfly_agent.Text.Chars.{Text}
use mayfly_agent.Text.Trim.{trim}
use mayfly_agent.Text.Words.{split_whitespace}
use mayfly_agent.Text.Lines.{lines}
use mayfly_agent.Result.{Result, ok, err, ◌>>=◌, map_err}
use mayfly_agent.Errors.{TrustedCaError, Error, invalid_trusted_ca}
use mayfly_agent.Ssh.TrustedCa.{
  CaPublicKey, is_allowed, is_valid_base64, parse_fields, parse_key, is_ignored, parse_lines, parse,
}

pub record IsTrusted (key : CaPublicKey) : Type 0 where
  pub allowed : is_allowed key.algorithm ≡ true
  pub encoded : is_valid_base64 key.key_data ≡ true

parse_fields-IsTrusted :
    (trimmed : Text) (fields : List Text) (key : CaPublicKey)
    → parse_fields trimmed fields ≡ ok key
    → IsTrusted key
unfolding parse_fields
parse_fields-IsTrusted trimmed [] key h = cc
parse_fields-IsTrusted trimmed (a ∷ []) key h = cc
parse_fields-IsTrusted trimmed (a ∷ b ∷ more) key h = ground arith

parse_key-IsTrusted : (line : Text) (key : CaPublicKey) → parse_key line ≡ ok key → IsTrusted key
unfolding parse_key
parse_key-IsTrusted line key h =
    parse_fields-IsTrusted (trim line) (split_whitespace (trim line)) key (ground arith)

-- How many lines are neither blank nor comments.
abbrev pub entries : List Text → ℕ
entries [] = 0
entries (line ∷ rest) = if is_ignored line then entries rest else suc (entries rest)

abbrev IsSound : ℕ → Result Error (List CaPublicKey) → Type 0
IsSound n (ok keys) = All IsTrusted keys × (length keys ≡ n)
IsSound n (err e) = Unit

cons-IsSound :
    (n : ℕ) (r : Result TrustedCaError CaPublicKey) (later : Result Error (List CaPublicKey))
    → ((key : CaPublicKey) → r ≡ ok key → IsTrusted key)
    → IsSound n later
    → IsSound (suc n) (do key ← map_err invalid_trusted_ca r; keys ← later; ok (key ∷ keys))
cons-IsSound n (err e) later t s = tt
cons-IsSound n (ok key) (err e) t s = tt
cons-IsSound n (ok key) (ok keys) t s = ((t key refl, s.0), omega arith)

parse_lines-IsSound : (ls : List Text) → IsSound (entries ls) (parse_lines ls)
unfolding parse_lines
parse_lines-IsSound [] = (tt, refl)
parse_lines-IsSound (line ∷ rest) = elim (Bool-cases (is_ignored line)) [
  | inl skipped ↦ rw skipped (parse_lines-IsSound rest)
  | inr kept ↦ rw kept (
      cons-IsSound (entries rest) (parse_key line) (parse_lines rest) (parse_key-IsTrusted line)
        (parse_lines-IsSound rest))
]

-- Where `parse` accepts a file, every key in its result has an algorithm of the allow-list and a
-- blob that passes the base64 test, and there is one key for each line that is neither blank nor a
-- comment.
pub parse_sound :
    (contents : Text) (keys : List CaPublicKey)
    → parse contents ≡ ok keys
    → All IsTrusted keys × (length keys ≡ entries (lines contents))
unfolding parse
parse_sound contents keys h =
    subst (IsSound (entries (lines contents))) h (parse_lines-IsSound (lines contents))
