-- ===== src/Identity/Enrollment/Token.antt =====
-- Which tokens pass.
use mayfly_agent.Result.{ok_or-eq-ok, ok_or, first_ok, reject_if, both_ok, ok}
use mayfly_agent.Text.Chars.{
  strip_prefix-eq, strip_prefix, strip_prefix-append, byte_len, Text, is_control,
  is_ascii_alphanumeric,
}
use mayfly_agent.Errors.{invalid_token}
use mayfly_agent.Identity.Enrollment.{max_token_len, token_prefix, is_token_char, validate_token}
use mathlib.Core.Path.{subst}
use mayfly_agent.Prelude.{
  ◌≤◌, ◌≡◌, refl, ap, ◌∙◌, ◌↔◌, true, false, ◌||◌, [], ◌∷◌, ◌++◌, arith, ltb, is_empty, any, all,
}

token_char_not_control : (s : Text) → all is_token_char s ≡ true → any is_control s ≡ false
unfolding is_ascii_alphanumeric is_control
token_char_not_control [] h = refl
token_char_not_control (c ∷ s) h = ground (arith, token_char_not_control s)

prefix_not_control :
    (s : Text) → any is_control s ≡ false → any is_control (token_prefix ++ s) ≡ false
unfolding is_control
prefix_not_control s h = h

pub record IsToken (token : Text) : Type 0 where
  pub suffix : Text
  pub has_prefix : token ≡ token_prefix ++ suffix
  pub nonempty : is_empty suffix ≡ false
  pub allowed : all is_token_char suffix ≡ true
  pub short : byte_len token ≤ max_token_len

validate_token-IsToken : (token : Text) → validate_token token ≡ ok tt → IsToken token
unfolding validate_token
validate_token-IsToken token h =
    let (_, h1) =
      both_ok (reject_if (ltb max_token_len (byte_len token) || any is_control token) invalid_token)
        _ h in
    let (suffix, (h2, stripped)) =
      first_ok (ok_or invalid_token (strip_prefix token_prefix token)) _ h1 in
    record {
      suffix = suffix;
      has_prefix =
          strip_prefix-eq token_prefix token suffix
            (ok_or-eq-ok invalid_token (strip_prefix token_prefix token) stripped);
      nonempty = ground arith;
      allowed = ground arith;
      short = ground arith;
    }

IsToken-validates :
    (suffix : Text)
    → is_empty suffix ≡ false
    → all is_token_char suffix ≡ true
    → byte_len (token_prefix ++ suffix) ≤ max_token_len
    → validate_token (token_prefix ++ suffix) ≡ ok tt
unfolding validate_token
IsToken-validates suffix n a l =
    let clean = prefix_not_control suffix (token_char_not_control suffix a) in
    let short : ltb max_token_len (byte_len (token_prefix ++ suffix)) ≡ false = ground arith in
    rw (short, clean, strip_prefix-append token_prefix suffix, n, a) refl

-- A token passes exactly where it is the prefix and at least one more character, all of them ASCII
-- letters, digits or underscores, and at most 256 bytes in all.
pub validate_token_iff : (token : Text) → (validate_token token ≡ ok tt) ↔ IsToken token
validate_token_iff token = (
  validate_token-IsToken token,
  λ t.
      ap validate_token t.has_prefix
      ∙ IsToken-validates t.suffix t.nonempty t.allowed
          (subst (λ s. byte_len s ≤ max_token_len) t.has_prefix t.short),
)
