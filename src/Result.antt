-- ===== src/Result.antt =====
-- `Result` of Rust: the `?` operator is the bind of a `do` block.
use mayfly_agent.Prelude.{◌≡◌, refl, ◌⊎◌, inl, inr, Bool, true, false, Option, none, some}

pub data Result (E A : Type 0) : Type 0 where
  ok : A → Result E A
  err : E → Result E A

infixl 5 ◌>>=◌ ◌>>◌
abbrev pub ◌>>=◌ : {E A B : Type 0} → Result E A → (A → Result E B) → Result E B
ok a >>= f = f a
err e >>= f = err e

abbrev pub ◌>>◌ : {E A B : Type 0} → Result E A → Result E B → Result E B
ok a >> k = k
err e >> k = err e

-- `if b { return Err(e) }`.
abbrev pub reject_if : {E : Type 0} → Bool → E → Result E (Unit {0})
reject_if true e = err e
reject_if false e = ok tt

abbrev pub map_err : {E F A : Type 0} → (E → F) → Result E A → Result F A
map_err f (ok a) = ok a
map_err f (err e) = err (f e)

abbrev pub ok_or : {E A : Type 0} → E → Option A → Result E A
ok_or e none = err e
ok_or e (some a) = ok a

abbrev pub is_ok : {E A : Type 0} → Result E A → Bool
is_ok (ok a) = true
is_ok (err e) = false

-- Where `m?; k` succeeds, both parts did.
pub both_ok :
    {E A B : Type 0} (m : Result E A) (k : Result E B) {b : B}
    → (m >> k) ≡ ok b
    → ((a : A) × (m ≡ ok a)) × (k ≡ ok b)
both_ok (err e) k h = cc
both_ok (ok a) k h = ((a, refl), h)

-- Where `k(m?)` succeeds, `m` did, and `k` of its value.
pub first_ok :
    {E A B : Type 0} (m : Result E A) (k : A → Result E B) {b : B} (h : (m >>= k) ≡ ok b)
    → (a : A) × ((k a ≡ ok b) × (m ≡ ok a))
first_ok (err e) k h = cc
first_ok (ok a) k h = (a, (h, refl))

pub Result-cases :
    {E A : Type 0} (r : Result E A) → ((a : A) × (r ≡ ok a)) ⊎ ((e : E) × (r ≡ err e))
Result-cases (ok a) = inl (a, refl)
Result-cases (err e) = inr (e, refl)

pub ok_or-eq-ok : {E A : Type 0} (e : E) (o : Option A) {a : A} → ok_or e o ≡ ok a → o ≡ some a
ok_or-eq-ok e none h = cc
ok_or-eq-ok e (some b) h = cc
