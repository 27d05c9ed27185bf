-- ===== src/ConstantTime.antt =====
-- `constant_time_eq` of src/ipc/protocol.rs, and `fingerprints_equal` of
-- src/protocol/ca_bundle.rs, which has the same body: a scan that gathers the differing bits.
pub mod Bits
use Prim.Native.Nat.{bit_or, bit_xor}
use mathlib.Core.Path.{ap₂}
use mayfly_agent.Prelude.{
  ℕ, ◌≡◌, refl, ◌↔◌, Bool, true, false, [], ◌∷◌, arith, ◌==◌, if◌then◌else◌, ==_self, length,
}
use mayfly_agent.Text.Chars.{Bytes}
use mayfly_agent.ConstantTime.Bits.{bit_or-zero, bit_or-zero_zero, bit_xor-zero, bit_xor_self}

-- The loop over the zipped bytes: `diff |= x ^ y`.
diff_from : ℕ → Bytes → Bytes → ℕ
diff_from diff [] b = diff
diff_from diff (x ∷ a) [] = diff
diff_from diff (x ∷ a) (y ∷ b) = diff_from (bit_or diff (bit_xor x y)) a b

unfoldable pub constant_time_eq : Bytes → Bytes → Bool
unfolding diff_from
constant_time_eq a b = if length a == length b then diff_from 0 a b == 0 else false

-- Bits that are set stay set.
diff_from-zero :
    (diff : ℕ) (a b : Bytes) → length a ≡ length b → diff_from diff a b ≡ 0 → (diff ≡ 0) × (a ≡ b)
unfolding diff_from
diff_from-zero diff [] [] l h = (h, refl)
diff_from-zero diff [] (y ∷ b) l h = absurd (omega arith)
diff_from-zero diff (x ∷ a) [] l h = absurd (omega arith)
diff_from-zero diff (x ∷ a) (y ∷ b) l h =
    let (here, rest) = diff_from-zero (bit_or diff (bit_xor x y)) a b (omega arith) h in
    let (before, same) = bit_or-zero diff (bit_xor x y) here in
    (before, ap₂ (λ c s. c ∷ s) (bit_xor-zero x y same) rest)

diff_from_self : (a : Bytes) → diff_from 0 a a ≡ 0
unfolding diff_from
diff_from_self [] = refl
diff_from_self (x ∷ a) = rw (bit_xor_self x, bit_or-zero_zero) (diff_from_self a)

-- The scan answers `true` exactly for equal byte strings.
pub constant_time_eq_iff : (a b : Bytes) → (constant_time_eq a b ≡ true) ↔ (a ≡ b)
unfolding constant_time_eq
constant_time_eq_iff a b = (
  λ h. (diff_from-zero 0 a b (ground arith) (ground arith)).1,
  λ e. rw e (rw (==_self (length b), diff_from_self b) refl),
)
