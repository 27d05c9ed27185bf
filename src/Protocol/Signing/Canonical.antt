-- ===== src/Protocol/Signing/Canonical.antt =====
-- What a signature over the canonical string binds.
use mayfly_agent.Text.Decimal.{decimal-all, decimal_inj}
use mayfly_agent.Text.Chars.{is_ascii_digit, Text}
use mathlib.Core.Path.{subst}
use mayfly_agent.Text.Integer.{pos, negsuc, print_int-one_line, print_int, ℤ}
use mayfly_agent.Protocol.Signing.{signing_domain, canonical_string}
use mayfly_agent.Prelude.{
  ◌+◌, ◌≡◌, refl, sym, ap, true, false, [], ◌∷◌, ◌++◌, arith, ◌==◌, drop, any, all,
}

abbrev pub OneLine : Text → Type 0
OneLine s = any (λ c. c == 10) s ≡ false

-- Two texts that start with one line each: the lines and the rests are the same.
first_line_inj :
    (a b s t : Text) → OneLine a → OneLine b → a ++ (10 ∷ s) ≡ b ++ (10 ∷ t) → (a ≡ b) × (s ≡ t)
first_line_inj [] [] s t ha hb h = ground arith
first_line_inj [] (d ∷ b) s t ha hb h = absurd (ground arith)
first_line_inj (c ∷ a) [] s t ha hb h = absurd (ground arith)
first_line_inj (c ∷ a) (d ∷ b) s t ha hb h = ground (arith, first_line_inj a b s t)

print_int_inj : (y z : ℤ) → print_int y ≡ print_int z → y ≡ z
unfolding print_int
print_int_inj (pos m) (pos n) h =
    ap pos (decimal_inj m n 44 44 [] [] refl refl (ap (λ s. s ++ 44 ∷ []) h)).0
print_int_inj (pos m) (negsuc n) h =
    absurd (ground (arith, subst (λ s. all is_ascii_digit s ≡ true) h (decimal-all m)))
print_int_inj (negsuc m) (pos n) h =
    absurd (ground (arith, subst (λ s. all is_ascii_digit s ≡ true) (sym h) (decimal-all n)))
print_int_inj (negsuc m) (negsuc n) h =
    let same : m + 1 ≡ n + 1 =
      (decimal_inj (m + 1) (n + 1) 44 44 [] [] refl refl (ap (λ s. drop 1 s ++ 44 ∷ []) h)).0 in
    ap negsuc (omega arith)

-- Two requests with the same canonical string agree in every field, where machine, nonce, method
-- and path hold no line feed: a signature cannot be moved to another request.
pub canonical_string_inj :
    (m n : Text) (y z : ℤ) (c d f g p q h k : Text)
    → OneLine m × OneLine n
    → OneLine c × OneLine d
    → OneLine f × OneLine g
    → OneLine p × OneLine q
    → canonical_string m y c f p h ≡ canonical_string n z d g q k
    → (m ≡ n) × (y ≡ z) × (c ≡ d) × (f ≡ g) × (p ≡ q) × (h ≡ k)
unfolding canonical_string
canonical_string_inj m n y z c d f g p q h k om oc of_ op e =
    let (_, e0) = first_line_inj signing_domain signing_domain _ _ refl refl e in
    let (machine, e1) = first_line_inj m n _ _ om.0 om.1 e0 in
    let (stamp, e2) =
      first_line_inj (print_int y) (print_int z) _ _ (print_int-one_line y) (print_int-one_line z)
        e1 in
    let (nonce, e3) = first_line_inj c d _ _ oc.0 oc.1 e2 in
    let (method, e4) = first_line_inj f g _ _ of_.0 of_.1 e3 in
    let (path, hash) = first_line_inj p q _ _ op.0 op.1 e4 in
    (machine, print_int_inj y z stamp, nonce, method, path, hash)
