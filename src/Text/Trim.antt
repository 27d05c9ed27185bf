-- ===== src/Text/Trim.antt =====
-- `str::trim`, `trim_start`, `trim_end` and `trim_end_matches`.
use mayfly_agent.Prelude.{
  ℕ, ◌≡◌, refl, Bool, true, false, ◌&&◌, [], ◌∷◌, ◌++◌, arith, ◌==◌, if◌then◌else◌, is_empty,
}
use mayfly_agent.Text.Chars.{Text, is_whitespace}

unfoldable pub trim_start : Text → Text
trim_start [] = []
trim_start (c ∷ s) = if is_whitespace c then trim_start s else c ∷ s

unfoldable pub trim_end : Text → Text
trim_end [] = []
trim_end (c ∷ s) =
    let rest = trim_end s in if is_empty rest && is_whitespace c then [] else c ∷ rest

unfoldable pub trim : Text → Text
unfolding trim_start trim_end
trim s = trim_end (trim_start s)

-- `trim_end_matches(c)` for one character.
unfoldable pub trim_end_matches : ℕ → Text → Text
trim_end_matches c [] = []
trim_end_matches c (d ∷ s) =
    let rest = trim_end_matches c s in if is_empty rest && c == d then [] else d ∷ rest

-- No text that starts and ends with other than white space is changed.
abbrev pub starts_plain : Text → Bool
starts_plain [] = true
starts_plain (c ∷ s) = if is_whitespace c then false else true

unfoldable pub ends_plain : Text → Bool
ends_plain [] = true
ends_plain (c ∷ []) = if is_whitespace c then false else true
ends_plain (c ∷ d ∷ s) = ends_plain (d ∷ s)

pub trim_end_plain : (s : Text) → ends_plain s ≡ true → trim_end s ≡ s
unfolding trim_end ends_plain
trim_end_plain [] h = refl
trim_end_plain (c ∷ []) h = ground arith
trim_end_plain (c ∷ d ∷ s) h = ground (arith, trim_end_plain (d ∷ s) h)

pub trim_start_plain : (s : Text) → starts_plain s ≡ true → trim_start s ≡ s
unfolding trim_start
trim_start_plain [] h = refl
trim_start_plain (c ∷ s) h = ground arith

pub trim_plain : (s : Text) → starts_plain s ≡ true → ends_plain s ≡ true → trim s ≡ s
unfolding trim
trim_plain s h k = rw (trim_start_plain s h) (trim_end_plain s k)

-- A line feed after a text that ends plainly is trimmed away.
trim_end_newline : (s : Text) → ends_plain s ≡ true → trim_end (s ++ 10 ∷ []) ≡ s
unfolding trim_end ends_plain is_whitespace
trim_end_newline [] h = refl
trim_end_newline (c ∷ []) h = ground arith
trim_end_newline (c ∷ d ∷ s) h = ground (arith, trim_end_newline (d ∷ s) h)

pub trim_newline :
    (c : ℕ) (s : Text)
    → is_whitespace c ≡ false
    → ends_plain (c ∷ s) ≡ true
    → trim ((c ∷ s) ++ 10 ∷ []) ≡ c ∷ s
unfolding trim
trim_newline c s h k =
    rw (trim_start_plain ((c ∷ s) ++ 10 ∷ []) (rw h)) (trim_end_newline (c ∷ s) k)
