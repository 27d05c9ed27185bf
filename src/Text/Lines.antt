-- ===== src/Text/Lines.antt =====
-- `str::lines` and `str::split` by one character.
use mayfly_agent.Prelude.{
  ℕ, ◌≡◌, refl, Bool, true, false, ◌&&◌, List, [], ◌∷◌, ◌++◌, arith, ◌==◌, if◌then◌else◌, any,
}
use mayfly_agent.Text.Chars.{Text, starts_with_code}
use mayfly_agent.Text.Words.{attach}

-- A line ends at a line feed; a carriage return just before it belongs to the line's end.
unfoldable pub lines : Text → List Text
unfolding starts_with_code
lines [] = []
lines (c ∷ s) =
    let rest = lines s in
    if c == 10 then [] ∷ rest else if c == 13 && starts_with_code 10 s then rest else attach c rest

-- `split(c)`: one item more than there are separators.
unfoldable pub split : ℕ → Text → List Text
split c [] = [] ∷ []
split c (d ∷ s) = let rest = split c s in if c == d then [] ∷ rest else attach d rest

abbrev pub is_line_end : ℕ → Bool
is_line_end c = if c == 10 then true else c == 13

-- A line without line feed or carriage return, and a line feed: it is the first item.
pub lines-line : (l s : Text) → any is_line_end l ≡ false → lines (l ++ 10 ∷ s) ≡ l ∷ lines s
unfolding lines
lines-line [] s h = refl
lines-line (c ∷ l) s h = ground (arith, lines-line l s)
