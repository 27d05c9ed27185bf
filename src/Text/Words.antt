-- ===== src/Text/Words.antt =====
-- `str::split_whitespace`, as the list of its items.
use mayfly_agent.Prelude.{
  ℕ, ◌≡◌, inl, inr, Bool, true, false, not, List, [], ◌∷◌, ◌++◌, arith, if◌then◌else◌, Bool-cases,
  any, All,
}
use mayfly_agent.Text.Chars.{Text, is_whitespace}

-- The character joins the first word.
abbrev pub attach : ℕ → List Text → List Text
attach c [] = (c ∷ []) ∷ []
attach c (w ∷ ws) = (c ∷ w) ∷ ws

-- Whether a word ends here.
abbrev pub at_boundary : Text → Bool
at_boundary [] = true
at_boundary (c ∷ s) = is_whitespace c

unfoldable pub split_whitespace : Text → List Text
split_whitespace [] = []
split_whitespace (c ∷ s) =
    let rest = split_whitespace s in
    if is_whitespace c then rest else if at_boundary s then (c ∷ []) ∷ rest else attach c rest

abbrev pub is_word : Text → Bool
is_word s = not (any is_whitespace s)

-- A word, then white space or the end: the word is the first item.
pub split_whitespace-word :
    (c : ℕ) (w s : Text)
    → is_word (c ∷ w) ≡ true
    → at_boundary s ≡ true
    → split_whitespace ((c ∷ w) ++ s) ≡ (c ∷ w) ∷ split_whitespace s
unfolding split_whitespace
split_whitespace-word c [] s h b = ground arith
split_whitespace-word c (d ∷ w) s h b = ground (arith, split_whitespace-word d w s)

pub split_whitespace-space :
    (c : ℕ) (s : Text) → is_whitespace c ≡ true → split_whitespace (c ∷ s) ≡ split_whitespace s
unfolding split_whitespace
split_whitespace-space c s h = ground arith

-- What no character of a text is, no character of its words is.
module _ (p : ℕ → Bool) where
  attach-none :
      (c : ℕ) (ws : List Text)
      → p c ≡ false
      → All (λ w. any p w ≡ false) ws
      → All (λ w. any p w ≡ false) (attach c ws)
  attach-none c [] h a = (ground arith, tt)
  attach-none c (w ∷ ws) h a = (ground arith, a.1)

  pub split_whitespace-none :
      (s : Text) → any p s ≡ false → All (λ w. any p w ≡ false) (split_whitespace s)
  unfolding split_whitespace
  split_whitespace-none [] h = tt
  split_whitespace-none (c ∷ s) h =
      let rest = split_whitespace-none s (ground arith) in
      let here : p c ≡ false = ground arith in
      elim (Bool-cases (is_whitespace c)) [
        | inl space ↦ rw space rest
        | inr plain ↦ rw plain (elim (Bool-cases (at_boundary s)) [
          | inl last ↦ rw last (ground arith, rest)
          | inr inner ↦ rw inner (attach-none c (split_whitespace s) here rest)
        ])
      ]

-- The items are words, and none is empty.
abbrev pub is_item : Text → Bool
is_item [] = false
is_item (c ∷ s) = is_word (c ∷ s)

attach-items :
    (c : ℕ) (ws : List Text)
    → is_whitespace c ≡ false
    → All (λ w. is_item w ≡ true) ws
    → All (λ w. is_item w ≡ true) (attach c ws)
attach-items c [] h a = (ground arith, tt)
attach-items c ([] ∷ ws) h a = (ground arith, a.1)
attach-items c ((d ∷ w) ∷ ws) h a = (ground arith, a.1)

pub split_whitespace-items : (s : Text) → All (λ w. is_item w ≡ true) (split_whitespace s)
unfolding split_whitespace
split_whitespace-items [] = tt
split_whitespace-items (c ∷ s) = elim (Bool-cases (is_whitespace c)) [
  | inl space ↦ rw space (split_whitespace-items s)
  | inr plain ↦ rw plain (elim (Bool-cases (at_boundary s)) [
    | inl last ↦ rw last (ground arith, split_whitespace-items s)
    | inr inner ↦ rw inner (attach-items c (split_whitespace s) plain (split_whitespace-items s))
  ])
]
