-- ===== src/Text/Integer.antt =====
-- Signed integers as `Display` prints them.
use mayfly_agent.Prelude.{
  ℕ, ◌+◌, ◌-◌, ◌≡◌, refl, true, false, [], ◌∷◌, arith, leb, ◌==◌, if◌then◌else◌, any, all,
}
use mayfly_agent.Text.Chars.{Text, is_ascii_digit}
use mayfly_agent.Text.Decimal.{decimal, decimal-all}

-- `negsuc n` is `- (n + 1)`.
pub data ℤ : Type 0 where
  pos negsuc : ℕ → ℤ

-- The difference of two natural numbers.
unfoldable pub difference : ℕ → ℕ → ℤ
difference m n = if leb n m then pos (m - n) else negsuc (n - m - 1)

unfoldable pub print_int : ℤ → Text
print_int (pos n) = decimal n
print_int (negsuc n) = 45 ∷ decimal (n + 1)

digits_no_feed : (s : Text) → all is_ascii_digit s ≡ true → any (λ c. c == 10) s ≡ false
digits_no_feed [] h = refl
digits_no_feed (c ∷ s) h = ground (arith, digits_no_feed s)

-- A printed number stands on one line.
pub print_int-one_line : (z : ℤ) → any (λ c. c == 10) (print_int z) ≡ false
unfolding print_int
print_int-one_line (pos n) = digits_no_feed (decimal n) (decimal-all n)
print_int-one_line (negsuc n) = digits_no_feed (decimal (n + 1)) (decimal-all (n + 1))
