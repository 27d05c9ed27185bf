-- ===== src/ConstantTime/Bits.antt =====
-- When `or` and `exclusive or` of two numbers are 0.
use Prim.Native.Nat.{max, differ, digits, bit_or, bit_xor, bit_or-bitwise, bit_xor-bitwise}
use mayfly_agent.Prelude.{ℕ, zero, suc, ◌/◌, ◌%◌, ◌≤◌, ◌≡◌, refl, sym, ap, ◌∙◌, arith}

differ-zero : (r s : ℕ) → differ r s ≡ 0 → r ≡ s
differ-zero zero s h = sym h
differ-zero (suc r) zero h = h
differ-zero (suc r) (suc s) h = ap suc (differ-zero r s h)

differ_self : (r : ℕ) → differ r r ≡ 0
differ_self zero = refl
differ_self (suc r) = differ_self r

abbrev xor_digits : ℕ → ℕ → ℕ → ℕ
xor_digits n a b = digits (λ b. b) differ n a b

abbrev or_digits : ℕ → ℕ → ℕ → ℕ
or_digits n a b = digits (λ b. b) max n a b

xor_digits-zero : (n a b : ℕ) → a ≤ n → xor_digits n a b ≡ 0 → a ≡ b
xor_digits-zero zero zero b l h = sym h
xor_digits-zero zero (suc a) b l h = absurd (omega arith)
xor_digits-zero (suc n) zero b l h = sym h
xor_digits-zero (suc n) (suc a) b l h =
    let high = xor_digits-zero n (suc a / 2) (b / 2) (omega arith) (omega arith) in
    let low = differ-zero (suc a % 2) (b % 2) (omega arith) in omega arith

xor_digits_self : (n a : ℕ) → a ≤ n → xor_digits n a a ≡ 0
xor_digits_self zero zero l = refl
xor_digits_self zero (suc a) l = absurd (omega arith)
xor_digits_self (suc n) zero l = refl
xor_digits_self (suc n) (suc a) l =
    omega (arith, xor_digits_self n (suc a / 2) (omega arith), differ_self (suc a % 2))

or_digits-zero : (n a b : ℕ) → a ≤ n → or_digits n a b ≡ 0 → (a ≡ 0) × (b ≡ 0)
or_digits-zero zero zero b l h = (refl, h)
or_digits-zero zero (suc a) b l h = absurd (omega arith)
or_digits-zero (suc n) zero b l h = (refl, h)
or_digits-zero (suc n) (suc a) b l h =
    let (high, other) = or_digits-zero n (suc a / 2) (b / 2) (omega arith) (omega arith) in
    absurd (omega arith)

pub bit_xor-zero : (a b : ℕ) → bit_xor a b ≡ 0 → a ≡ b
bit_xor-zero a b h = xor_digits-zero a a b (omega arith) (sym (bit_xor-bitwise a b) ∙ h)

pub bit_xor_self : (a : ℕ) → bit_xor a a ≡ 0
bit_xor_self a = bit_xor-bitwise a a ∙ xor_digits_self a a (omega arith)

pub bit_or-zero : (a b : ℕ) → bit_or a b ≡ 0 → (a ≡ 0) × (b ≡ 0)
bit_or-zero a b h = or_digits-zero a a b (omega arith) (sym (bit_or-bitwise a b) ∙ h)

pub bit_or-zero_zero : bit_or 0 0 ≡ 0
bit_or-zero_zero = refl
