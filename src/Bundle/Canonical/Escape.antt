-- ===== src/Bundle/Canonical/Escape.antt =====
-- The escaping is a prefix code: an escaped text is read back in one way.
use mathlib.Core.Path.{ap₂}
use mathlib.Core.List.{append_assoc}
use mayfly_agent.Prelude.{ℕ, ◌≡◌, sym, ◌∙◌, ◌≢◌, [], ◌∷◌, ◌++◌, arith}
use mayfly_agent.Text.Chars.{Text}
use mayfly_agent.Bundle.Canonical.{escape_char, json_escape}

escape_char_inj :
    (c d : ℕ) (s t : Text) → escape_char c ++ s ≡ escape_char d ++ t → (c ≡ d) × (s ≡ t)
unfolding escape_char
escape_char_inj c d s t h = ground arith

escape_char_no_quote : (c : ℕ) (s t : Text) → escape_char c ++ s ≢ 34 ∷ t
unfolding escape_char
escape_char_no_quote c s t h = ground arith

-- Up to the closing quote, the text and what follows are determined.
pub json_escape_inj :
    (a b s t : Text) → json_escape a ++ (34 ∷ s) ≡ json_escape b ++ (34 ∷ t) → (a ≡ b) × (s ≡ t)
unfolding json_escape
json_escape_inj [] [] s t h = ground arith
json_escape_inj [] (d ∷ b) s t h = absurd (
    escape_char_no_quote d (json_escape b ++ (34 ∷ t)) s
      (sym (h ∙ append_assoc (escape_char d) (json_escape b) (34 ∷ t))))
json_escape_inj (c ∷ a) [] s t h = absurd (
    escape_char_no_quote c (json_escape a ++ (34 ∷ s)) t
      (sym (append_assoc (escape_char c) (json_escape a) (34 ∷ s)) ∙ h))
json_escape_inj (c ∷ a) (d ∷ b) s t h =
    let (same, rest) = escape_char_inj c d (json_escape a ++ (34 ∷ s)) (json_escape b ++ (34 ∷ t)) (
      sym (append_assoc (escape_char c) (json_escape a) (34 ∷ s))
      ∙ h
      ∙ append_assoc (escape_char d) (json_escape b) (34 ∷ t)) in
    let (later, after) = json_escape_inj a b s t rest in (ap₂ (λ x y. x ∷ y) same later, after)
