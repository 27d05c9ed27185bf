-- ===== src/Ssh/TrustedCa/RoundTrip.antt =====
-- A line of algorithm, blob and comment, one space apart, is read back as that key.
use mathlib.Core.List.{append-nil}
use mayfly_agent.Prelude.{
  ℕ, ◌≡◌, refl, sym, ap, ◌∙◌, true, false, some, [], ◌∷◌, ◌++◌, arith, is_empty, any, any-append,
}
use mayfly_agent.Text.Chars.{Text, strip_prefix, strip_prefix-append, is_whitespace, is_control}
use mayfly_agent.Text.Trim.{
  trim, trim_start, starts_plain, ends_plain, trim_plain, trim_start_plain,
}
use mayfly_agent.Text.Words.{
  split_whitespace, is_word, split_whitespace-word, split_whitespace-space,
}
use mayfly_agent.Result.{ok}
use mayfly_agent.Ssh.TrustedCa.{is_allowed, is_valid_base64, collect_comment, parse_key, nonempty}

-- A field: not empty, without white space and control characters.
abbrev pub IsField : Text → Type 0
IsField [] = ⊥
IsField (c ∷ s) = (is_word (c ∷ s) ≡ true) × (any is_control (c ∷ s) ≡ false)

ends_plain-word : (s : Text) → is_word s ≡ true → ends_plain s ≡ true
unfolding ends_plain
ends_plain-word [] h = refl
ends_plain-word (c ∷ []) h = ground arith
ends_plain-word (c ∷ d ∷ s) h = ground (arith, ends_plain-word (d ∷ s))

ends_plain-append : (s t : Text) (c : ℕ) → ends_plain (s ++ c ∷ t) ≡ ends_plain (c ∷ t)
unfolding ends_plain
ends_plain-append [] t c = refl
ends_plain-append (d ∷ []) t c = refl
ends_plain-append (d ∷ e ∷ s) t c = ends_plain-append (e ∷ s) t c

abbrev pub key_line : Text → Text → Text → Text
key_line algorithm blob comment = algorithm ++ (32 ∷ (blob ++ (32 ∷ comment)))

collect_comment_steps :
    (whole algorithm blob after_algo after_key : Text)
    → strip_prefix algorithm (trim_start whole) ≡ some after_algo
    → strip_prefix blob (trim_start after_algo) ≡ some after_key
    → collect_comment whole algorithm blob ≡ nonempty (trim after_key)
unfolding collect_comment
collect_comment_steps whole algorithm blob after_algo after_key e f = rw (e, collect_comment) (rw f)

trim_start_space : (s : Text) → trim_start (32 ∷ s) ≡ trim_start s
unfolding trim_start is_whitespace
trim_start_space s = refl

trim_space : (s : Text) → trim (32 ∷ s) ≡ trim s
unfolding trim is_whitespace
trim_space s = refl

starts_plain-word :
    (c : ℕ) (s t : Text) → is_word (c ∷ s) ≡ true → starts_plain ((c ∷ s) ++ t) ≡ true
starts_plain-word c s t h = ground arith

module _ (a b k : ℕ) (alg blob note : Text) (wa : is_word (a ∷ alg) ≡ true)
    (wb : is_word (b ∷ blob) ≡ true) (wk : is_word (k ∷ note) ≡ true) where
  after_algo : Text
  after_algo = 32 ∷ ((b ∷ blob) ++ (32 ∷ k ∷ note))

  line : Text
  unfolding after_algo
  line = (a ∷ alg) ++ after_algo

  trim-line : trim line ≡ line
  unfolding line
  trim-line = trim_plain line (starts_plain-word a alg after_algo wa) (
      ends_plain-append (a ∷ alg) ((b ∷ blob) ++ (32 ∷ k ∷ note)) 32
      ∙ ends_plain-append (32 ∷ b ∷ blob) (k ∷ note) 32
      ∙ ends_plain-append (32 ∷ []) note k
      ∙ ends_plain-word (k ∷ note) wk)

  words_tail : split_whitespace (k ∷ note) ≡ (k ∷ note) ∷ []
  unfolding split_whitespace
  words_tail =
      ap split_whitespace (sym (append-nil (k ∷ note))) ∙ split_whitespace-word k note [] wk refl

  words_line : split_whitespace line ≡ (a ∷ alg) ∷ (b ∷ blob) ∷ (k ∷ note) ∷ []
  unfolding line is_whitespace
  words_line =
      split_whitespace-word a alg after_algo wa refl
      ∙ ap (λ t. (a ∷ alg) ∷ t)
          (split_whitespace-space 32 ((b ∷ blob) ++ (32 ∷ k ∷ note)) refl
            ∙ split_whitespace-word b blob (32 ∷ k ∷ note) wb refl
            ∙ ap (λ t. (b ∷ blob) ∷ t) (split_whitespace-space 32 (k ∷ note) refl ∙ words_tail))

  trim_note : trim (32 ∷ k ∷ note) ≡ k ∷ note
  trim_note =
      trim_space (k ∷ note) ∙ trim_plain (k ∷ note) (ground arith) (ends_plain-word (k ∷ note) wk)

  comment_line : collect_comment line (a ∷ alg) (b ∷ blob) ≡ some (k ∷ note)
  unfolding line nonempty
  comment_line =
      collect_comment_steps line (a ∷ alg) (b ∷ blob) after_algo (32 ∷ k ∷ note)
        (ap (strip_prefix (a ∷ alg)) (trim_start_plain line (starts_plain-word a alg after_algo wa))
          ∙ strip_prefix-append (a ∷ alg) after_algo)
        (ap (strip_prefix (b ∷ blob)) (
            trim_start_space ((b ∷ blob) ++ (32 ∷ k ∷ note))
            ∙ trim_start_plain ((b ∷ blob) ++ (32 ∷ k ∷ note))
                (starts_plain-word b blob (32 ∷ k ∷ note) wb))
          ∙ strip_prefix-append (b ∷ blob) (32 ∷ k ∷ note))
      ∙ ap nonempty trim_note

  is_empty-line : is_empty line ≡ false
  unfolding line
  is_empty-line = refl

  parse_key-line :
      any is_control line ≡ false
      → is_allowed (a ∷ alg) ≡ true
      → is_valid_base64 (b ∷ blob) ≡ true
      → parse_key line
        ≡ ok (record { algorithm = a ∷ alg; key_data = b ∷ blob; comment = some (k ∷ note) })
  unfolding parse_key
  parse_key-line clean allowed encoded =
      rw (clean, trim-line, words_line, is_empty-line, allowed, encoded, comment_line) refl

pub any_control-key_line :
    (a b c : Text)
    → any is_control a ≡ false
    → any is_control b ≡ false
    → any is_control c ≡ false
    → any is_control (key_line a b c) ≡ false
unfolding is_control
any_control-key_line a b c ha hb hc =
    ground (arith, any-append is_control a (32 ∷ (b ++ (32 ∷ c))), any-append is_control b (32 ∷ c))

-- A line made of an allowed algorithm, a valid blob and a comment, each without white space and
-- control characters, is read as the key with these three parts.
pub parse_key-key_line :
    (algorithm blob comment : Text)
    → IsField algorithm
    → IsField blob
    → IsField comment
    → is_allowed algorithm ≡ true
    → is_valid_base64 blob ≡ true
    → parse_key (key_line algorithm blob comment)
      ≡ ok (record { algorithm = algorithm; key_data = blob; comment = some comment })
unfolding line after_algo
parse_key-key_line [] blob comment fa fb fc p e = absurd fa
parse_key-key_line (a ∷ alg) [] comment fa fb fc p e = absurd fb
parse_key-key_line (a ∷ alg) (b ∷ blob) [] fa fb fc p e = absurd fc
parse_key-key_line (a ∷ alg) (b ∷ blob) (k ∷ note) fa fb fc p e =
    parse_key-line a b k alg blob note fa.0 fb.0 fc.0
      (any_control-key_line (a ∷ alg) (b ∷ blob) (k ∷ note) fa.1 fb.1 fc.1) p e

pub trim-key_line :
    (algorithm blob comment : Text)
    → IsField algorithm
    → IsField blob
    → IsField comment
    → trim (key_line algorithm blob comment) ≡ key_line algorithm blob comment
unfolding line after_algo
trim-key_line [] blob comment fa fb fc = absurd fa
trim-key_line (a ∷ alg) [] comment fa fb fc = absurd fb
trim-key_line (a ∷ alg) (b ∷ blob) [] fa fb fc = absurd fc
trim-key_line (a ∷ alg) (b ∷ blob) (k ∷ note) fa fb fc =
    trim-line a b k alg blob note fa.0 fb.0 fc.0
