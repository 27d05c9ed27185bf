-- ===== src/Text/Decimal.antt =====
-- `u64::to_string` and `str::parse::<u64>`, and their round trip.
use mayfly_agent.Prelude.{
  ℕ, zero, suc, ◌+◌, ◌-◌, ◌*◌, ◌/◌, ◌%◌, ◌^◌, ◌<◌, ◌≡◌, refl, sym, ap, ◌∙◌, inl, inr, true, false,
  Option, none, some, [], ◌∷◌, ◌++◌, arith, ltb, ◌==◌, if◌then◌else◌, Bool-cases, is_empty, all,
}
use mayfly_agent.Text.Chars.{Text, is_ascii_digit}

abbrev pub u64_mod : ℕ
u64_mod = 2 ^ 64

-- The digits of a number before a tail. A number has at most as many digits as the fuel.
digits : ℕ → ℕ → Text → Text
digits zero n tail = tail
digits (suc f) n tail =
    let here = (b'0' + n % 10) ∷ tail in
    let rest = digits f (n / 10) here in if ltb n 10 then here else rest

unfoldable pub decimal : ℕ → Text
unfolding digits
decimal n = digits (suc n) n []

-- Checked multiplication and addition at each digit.
unfoldable pub parse_digits : ℕ → Text → Option ℕ
parse_digits acc [] = some acc
parse_digits acc (c ∷ s) =
    let next = acc * 10 + (c - b'0') in
    let rest = parse_digits next s in
    if is_ascii_digit c then (if ltb next u64_mod then rest else none) else none

-- One leading `+` is accepted, and no empty text.
unfoldable pub parse_u64 : Text → Option ℕ
unfolding parse_digits
parse_u64 [] = none
parse_u64 (c ∷ []) = parse_digits 0 (c ∷ [])
parse_u64 (c ∷ d ∷ s) = if c == b'+' then parse_digits 0 (d ∷ s) else parse_digits 0 (c ∷ d ∷ s)

parse_digits_step :
    (n : ℕ) (tail : Text)
    → n < u64_mod
    → parse_digits (n / 10) ((b'0' + n % 10) ∷ tail) ≡ parse_digits n tail
unfolding parse_digits
parse_digits_step n tail h =
    let e : n / 10 * 10 + (b'0' + n % 10 - b'0') ≡ n = omega arith in rw e (ground arith)

digits_small :
    (n : ℕ) (tail : Text) → n < 10 → parse_digits 0 ((b'0' + n % 10) ∷ tail) ≡ parse_digits n tail
unfolding parse_digits
digits_small n tail h =
    let e : 0 * 10 + (b'0' + n % 10 - b'0') ≡ n = omega arith in rw e (ground arith)

parse_digits-digits :
    (f n : ℕ) (tail : Text)
    → n < f
    → n < u64_mod
    → parse_digits 0 (digits f n tail) ≡ parse_digits n tail
unfolding digits
parse_digits-digits zero n tail h k = absurd (omega arith)
parse_digits-digits (suc f) n tail h k = elim (Bool-cases (ltb n 10)) [
  | inl small ↦ rw small (digits_small n tail (ground arith))
  | inr large ↦ rw large (
      parse_digits-digits f (n / 10) ((b'0' + n % 10) ∷ tail) (ground arith) (omega arith)
      ∙ parse_digits_step n tail k)
]

-- Every character of a printed number is a digit.
digits-all :
    (f n : ℕ) (tail : Text)
    → all is_ascii_digit tail ≡ true
    → all is_ascii_digit (digits f n tail) ≡ true
unfolding digits
digits-all zero n tail h = h
digits-all (suc f) n tail h =
    let here : all is_ascii_digit ((b'0' + n % 10) ∷ tail) ≡ true = ground arith in
    ground (arith, digits-all f (n / 10) ((b'0' + n % 10) ∷ tail) here)

pub decimal-all : (n : ℕ) → all is_ascii_digit (decimal n) ≡ true
unfolding decimal
decimal-all n = digits-all (suc n) n [] refl

parse_u64_of_digits :
    (s : Text)
    → all is_ascii_digit s ≡ true
    → parse_u64 s ≡ (if is_empty s then none else parse_digits 0 s)
unfolding parse_u64
parse_u64_of_digits [] h = refl
parse_u64_of_digits (c ∷ []) h = refl
parse_u64_of_digits (c ∷ d ∷ s) h = ground arith

digits_shape : (f n : ℕ) (tail : Text) → (c : ℕ) × (s : Text) × (digits (suc f) n tail ≡ c ∷ s)
unfolding digits
digits_shape zero n tail = (b'0' + n % 10, tail, ground arith)
digits_shape (suc f) n tail = elim (Bool-cases (ltb n 10)) [
  | inl small ↦ (b'0' + n % 10, tail, rw small)
  | inr large ↦ rw large (digits_shape f (n / 10) ((b'0' + n % 10) ∷ tail))
]

pub decimal_shape : (n : ℕ) → (c : ℕ) × (s : Text) × (decimal n ≡ c ∷ s)
unfolding decimal
decimal_shape n = digits_shape n n []

parse_digits-decimal : (n : ℕ) → n < u64_mod → parse_digits 0 (decimal n) ≡ some n
unfolding decimal
parse_digits-decimal n h =
    parse_digits-digits (suc n) n [] (omega arith) h ∙ unfold parse_digits in refl

-- A printed `u64` is read back.
pub parse_u64-decimal : (n : ℕ) → n < u64_mod → parse_u64 (decimal n) ≡ some n
parse_u64-decimal n h =
    parse_u64_of_digits (decimal n) (decimal-all n)
    ∙ (let (c, s, e) = decimal_shape n in
        let kept : (if is_empty (decimal n) then none else parse_digits 0 (decimal n))
            ≡ parse_digits 0 (decimal n) =
          rw e in
        kept ∙ parse_digits-decimal n h)

-- A number up to the first character that is no digit.
read_number : ℕ → Text → ℕ × Text
read_number acc [] = (acc, [])
read_number acc (c ∷ s) =
    let rest = read_number (acc * 10 + (c - b'0')) s in
    if is_ascii_digit c then rest else (acc, c ∷ s)

read_number_step :
    (n : ℕ) (tail : Text) → read_number (n / 10) ((b'0' + n % 10) ∷ tail) ≡ read_number n tail
unfolding read_number
read_number_step n tail =
    let e : n / 10 * 10 + (b'0' + n % 10 - b'0') ≡ n = omega arith in rw e (ground arith)

read_number-digits :
    (f n : ℕ) (tail : Text) → n < f → read_number 0 (digits f n tail) ≡ read_number n tail
unfolding digits
read_number-digits zero n tail h = absurd (omega arith)
read_number-digits (suc f) n tail h = elim (Bool-cases (ltb n 10)) [
  | inl small ↦
      let none_above : n / 10 ≡ 0 = ground arith in
      rw small (rw none_above at (read_number_step n tail))
  | inr large ↦ rw large (
      read_number-digits f (n / 10) ((b'0' + n % 10) ∷ tail) (ground arith)
      ∙ read_number_step n tail)
]

digits-append : (f n : ℕ) (tail s : Text) → digits f n tail ++ s ≡ digits f n (tail ++ s)
unfolding digits
digits-append zero n tail s = refl
digits-append (suc f) n tail s = elim (Bool-cases (ltb n 10)) [
  | inl small ↦ rw small
  | inr large ↦ rw large (digits-append f (n / 10) ((b'0' + n % 10) ∷ tail) s)
]

read_number-decimal :
    (n c : ℕ) (s : Text)
    → is_ascii_digit c ≡ false
    → read_number 0 (decimal n ++ (c ∷ s)) ≡ (n, c ∷ s)
unfolding decimal
read_number-decimal n c s h =
    ap (read_number 0) (digits-append (suc n) n [] (c ∷ s))
    ∙ read_number-digits (suc n) n (c ∷ s) (omega arith)
    ∙ unfold read_number in rw h

-- A printed number before a character that is no digit is determined, and so is what follows.
pub decimal_inj :
    (m n c d : ℕ) (s t : Text)
    → is_ascii_digit c ≡ false
    → is_ascii_digit d ≡ false
    → decimal m ++ (c ∷ s) ≡ decimal n ++ (d ∷ t)
    → (m ≡ n) × (Path Text (c ∷ s) (d ∷ t))
decimal_inj m n c d s t hc hd h =
    let e =
      sym (read_number-decimal m c s hc) ∙ ap (read_number 0) h ∙ read_number-decimal n d t hd in
    (ap (λ p. p.0) e, ap (λ p. p.1) e)
