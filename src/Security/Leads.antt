-- ===== src/Security/Leads.antt =====
-- Pre- and postconditions for the steps that `secure_write` is composed of.
use mayfly_agent.Result.{err, ok, Result-cases, Result}
use mayfly_agent.Security.Write.{
  parent_of, next_act, syscall, advance, check_parent, Act, History, ◌>>◌,
}
use mayfly_agent.Errors.{Error}
use mayfly_agent.Security.{Disk}
use mayfly_agent.Text.Chars.{Text}
use mayfly_agent.Prelude.{inl, inr, Bool, true, false, if◌then◌else◌}

-- What a step does to the states: from one that satisfies `P`, it ends well in one that satisfies
-- `Q`, or fails in one that satisfies `R`.
unfoldable pub Ends :
    (History → Type 0) → (History → Type 0) → History × Result Error (Unit {0}) → Type 0
Ends Q R (h, ok a) = Q h
Ends Q R (h, err e) = R h

unfoldable pub Leads : (History → Type 0) → Act → (History → Type 0) → (History → Type 0) → Type 0
Leads P m Q R = (h : History) → P h → Ends Q R (m h)

pub next_act-Ends :
    (Q S R : History → Type 0) (k : Act) (r : History × Result Error (Unit {0}))
    → Ends Q R r
    → Leads Q k S R
    → Ends S R (next_act r k)
unfolding Ends Leads
next_act-Ends Q S R k (h, ok a) e l = l h e
next_act-Ends Q S R k (h, err f) e l = e

pub then_leads :
    (P Q S R : History → Type 0) (m k : Act) → Leads P m Q R → Leads Q k S R → Leads P (m >> k) S R
unfolding Leads
then_leads P Q S R m k first second = λ h p. next_act-Ends Q S R k (m h) (first h p) second

pub syscall_leads :
    (P Q R : History → Type 0) (b : Bool) (f : Disk → Disk)
    → ((h : History) → P h → Q (advance (f h.present) h))
    → ((h : History) → P h → R h)
    → Leads P (syscall b f) Q R
unfolding Leads Ends
syscall_leads P Q R true f good bad = good
syscall_leads P Q R false f good bad = bad

pub if_Ends :
    (Q R : History → Type 0) (b : Bool) (x y : History × Result Error (Unit {0}))
    → Ends Q R x
    → Ends Q R y
    → Ends Q R (if b then x else y)
if_Ends Q R true x y p q = p
if_Ends Q R false x y p q = q

pub check_leads :
    (P R : History → Type 0) (path : Text)
    → ((h : History) → P h → R h)
    → Leads P (check_parent path) P R
unfolding Leads Ends
check_leads P R path bad h p = elim (Result-cases (parent_of path)) [
  | inl (dir, e) ↦ rw (e, check_parent) p
  | inr (e, r) ↦ rw (r, check_parent) (bad h p)
]
