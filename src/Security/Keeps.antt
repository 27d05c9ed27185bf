-- ===== src/Security/Keeps.antt =====
-- What a computation over the file system preserves, by its parts.
use mayfly_agent.Prelude.{◌≡◌, refl, ap}
use mayfly_agent.Security.{Disk}
use mayfly_agent.Errors.{Error}
use mayfly_agent.Security.Store.{and_then, pure, reading, Store, ◌>>=◌}
use mayfly_agent.Security.Write.{History}
use mayfly_agent.Result.{err, ok, Result}

-- A computation preserves `I`.
unfoldable pub Keeps : {A : Type 0} → (History → Type 0) → Store A → Type 0
Keeps I m = (h : History) → I h → I (m h).0

pub and_then-Keeps :
    {A B : Type 0} (I : History → Type 0) (r : History × Result Error A) (f : A → Store B)
    → I r.0
    → ((a : A) → Keeps I (f a))
    → I (and_then r f).0
unfolding Keeps and_then
and_then-Keeps I (h, ok a) f i step = step a h i
and_then-Keeps I (h, err e) f i step = i

pub bind-Keeps :
    {A B : Type 0} (I : History → Type 0) (m : Store A) (f : A → Store B)
    → Keeps I m
    → ((a : A) → Keeps I (f a))
    → Keeps I (m >>= f)
unfolding Keeps
bind-Keeps I m f first later h i = and_then-Keeps I (m h) f (first h i) later

pub pure-Keeps : {A : Type 0} (I : History → Type 0) (r : Result Error A) → Keeps I (pure r)
unfolding Keeps
pure-Keeps I r h i = i

pub reading-Keeps :
    {A : Type 0} (I : History → Type 0) (f : Disk → Result Error A) → Keeps I (reading f)
unfolding Keeps
reading-Keeps I f h i = i

-- A computation that succeeds went on from a success.
pub and_then-ok :
    {A B : Type 0} (r : History × Result Error A) (f : A → Store B) (h : History) {b : B}
    → and_then r f ≡ (h, ok b)
    → (a : A) × (r.1 ≡ ok a) × (f a r.0 ≡ (h, ok b))
unfolding and_then
and_then-ok (x, ok a) f h e = (a, refl, e)
and_then-ok {B} (x, err failure) f h {b} e =
    absurd (let bad : err failure ≡ ok b = ap (λ (t : History × Result Error B). t.1) e in cc)
