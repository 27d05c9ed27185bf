-- ===== src/Bundle/Render/Published.antt =====
-- The rendered file is read back as the keys of the bundle.
use mayfly_agent.Text.Chars.{Text, codes, is_whitespace, is_ascii_digit, starts_with_code}
use mayfly_agent.Ssh.TrustedCa.{is_ignored, parse_lines, parse}
use mayfly_agent.Prelude.{
  ◌≡◌, refl, ap, ◌∙◌, true, false, List, [], ◌∷◌, ◌++◌, map, arith, any, all, any-append, All,
}
use mayfly_agent.Text.Trim.{trim}
use mayfly_agent.Text.Lines.{lines, lines-line, is_line_end}
use mayfly_agent.Text.Decimal.{decimal, decimal-all}
use mayfly_agent.Result.{ok}
use mayfly_agent.Bundle.Types.{CaBundleKey, CaBundle}
use mayfly_agent.Bundle.Render.{render_keys, render_trusted_user_ca_keys}
use mayfly_agent.Bundle.Render.KeyLine.{
  IsPublishable, trusted_key, line_of, render_key_line-eq, line_of-one_line, parse_first,
}

-- A comment line is ignored.
is_ignored_hash : (s : Text) → is_ignored (35 ∷ s) ≡ true
unfolding is_ignored trim is_whitespace starts_with_code
is_ignored_hash s = ground arith

parse_keys :
    (keys : List CaBundleKey)
    → All IsPublishable keys
    → parse_lines (lines (render_keys keys)) ≡ ok (map trusted_key keys)
unfolding render_keys
parse_keys [] p = unfold lines parse_lines in refl
parse_keys (key ∷ keys) p =
    ap (λ l. parse_lines (lines (l ++ (10 ∷ render_keys keys)))) (render_key_line-eq key p.0)
    ∙ ap parse_lines (lines-line (line_of key p.0) (render_keys keys) (line_of-one_line key p.0))
    ∙ parse_first key p.0 (lines (render_keys keys)) (map trusted_key keys) (parse_keys keys p.1)

digits_one_line : (s : Text) → all is_ascii_digit s ≡ true → any is_line_end s ≡ false
digits_one_line [] h = refl
digits_one_line (c ∷ s) h = ground (arith, digits_one_line s)

parse_comment :
    (s rest : Text)
    → any is_line_end s ≡ false
    → parse_lines (lines ((35 ∷ s) ++ (10 ∷ rest))) ≡ parse_lines (lines rest)
parse_comment s rest h =
    ap parse_lines (lines-line (35 ∷ s) rest h) ∙ unfold parse_lines in rw (is_ignored_hash s) refl

one_line-append :
    (a b : Text)
    → any is_line_end a ≡ false
    → any is_line_end b ≡ false
    → any is_line_end (a ++ b) ≡ false
one_line-append a b h k = ground (arith, any-append is_line_end a b)

-- The file that is rendered for a bundle whose keys passed the checks and whose fingerprint stands
-- on one line is parsed without error, as one key for each key of the bundle, in the same order,
-- with its blob and with `mayfly:` and its `key_id` for a comment.
pub parse-render :
    (bundle : CaBundle)
    → All IsPublishable bundle.keys
    → any is_line_end bundle.fingerprint ≡ false
    → parse (render_trusted_user_ca_keys bundle) ≡ ok (map trusted_key bundle.keys)
unfolding parse render_trusted_user_ca_keys
parse-render bundle p one_line =
    parse_comment (codes " Managed by mayfly-agent. DO NOT EDIT.") _ refl
    ∙ parse_comment (codes " bundle_version: " ++ decimal bundle.bundle_version) _ (
        one_line-append (codes " bundle_version: ") (decimal bundle.bundle_version) refl
          (digits_one_line (decimal bundle.bundle_version) (decimal-all bundle.bundle_version)))
    ∙ parse_comment (codes " generation: " ++ decimal bundle.generation) _ (
        one_line-append (codes " generation: ") (decimal bundle.generation) refl
          (digits_one_line (decimal bundle.generation) (decimal-all bundle.generation)))
    ∙ parse_comment (codes " fingerprint: " ++ bundle.fingerprint) _
        (one_line-append (codes " fingerprint: ") bundle.fingerprint refl one_line)
    ∙ parse_keys bundle.keys p
