-- ===== src/Bundle/Canonical/Order.antt =====
-- The canonical encodings do not depend on the order in which the keys were sent.
use mayfly_agent.Text.Chars.{Text, text_le_total, text_le_trans, text_le_antisym}
use mathlib.Core.List.{Perm, Permᴰ}
use mathlib.Core.Logic.{∥∥₁_elim}
use mathlib.Core.Path.{subst}
use mayfly_agent.Prelude.{ℕ, ◌≡◌, refl, sym, ◌∙◌, ◌≢◌, List, [], ◌∷◌, arith, All}
use mayfly_agent.Bundle.Types.{CaBundleKey}
use mayfly_agent.Bundle.Canonical.{insert_key, sort_keys, canonical_json}

-- No `key_id` stands twice.
abbrev pub IdsApart : List CaBundleKey → Type 0
IdsApart [] = Unit
IdsApart (k ∷ ks) = All (λ j. k.key_id ≢ j.key_id) ks × IdsApart ks

insert_key_comm :
    (j k : CaBundleKey) (ks : List CaBundleKey)
    → j.key_id ≢ k.key_id
    → insert_key j (insert_key k ks) ≡ insert_key k (insert_key j ks)
unfolding insert_key
insert_key_comm j k [] d =
    ground (arith, text_le_total j.key_id k.key_id, text_le_antisym j.key_id k.key_id)
insert_key_comm j k (i ∷ ks) d = ground (
  arith,
  insert_key_comm j k ks d,
  text_le_total j.key_id k.key_id,
  text_le_total j.key_id i.key_id,
  text_le_total k.key_id i.key_id,
  text_le_antisym j.key_id k.key_id,
  text_le_trans j.key_id k.key_id i.key_id,
  text_le_trans k.key_id j.key_id i.key_id,
)

All-perm : (P : CaBundleKey → Type 0) {a b : List CaBundleKey} → Permᴰ a b → All P a → All P b
All-perm P Permᴰ.nil h = tt
All-perm P (Permᴰ.cons e p) h = (subst P e h.0, All-perm P p h.1)
All-perm P (Permᴰ.swap d e) h = (subst P e h.1.0, (subst P d h.0, h.1.1))
All-perm P (Permᴰ.trans p q) h = All-perm P q (All-perm P p h)

IdsApart-perm : {a b : List CaBundleKey} → Permᴰ a b → IdsApart a → IdsApart b
IdsApart-perm Permᴰ.nil h = tt
IdsApart-perm (Permᴰ.cons {l₂ = bs} e p) h = (
  subst (λ k. All (λ (j : CaBundleKey). k.key_id ≢ j.key_id) bs) e (All-perm _ p h.0),
  IdsApart-perm p h.1,
)
IdsApart-perm (Permᴰ.swap {b = b} {b' = c} {l = l} d e) h =
    subst (λ x. IdsApart (x ∷ c ∷ l)) e
      (subst (λ y. IdsApart (b ∷ y ∷ l)) d (((λ x. h.0.0 (sym x)), h.1.0), (h.0.1, h.1.1)))
IdsApart-perm (Permᴰ.trans p q) h = IdsApart-perm q (IdsApart-perm p h)

sort_keys_perm : {a b : List CaBundleKey} → Permᴰ a b → IdsApart a → sort_keys a ≡ sort_keys b
unfolding sort_keys
sort_keys_perm Permᴰ.nil h = refl
sort_keys_perm (Permᴰ.cons e p) h = rw (e, sort_keys_perm p h.1) refl
sort_keys_perm (Permᴰ.swap {a = a} {b = b} {l = l} d e) h =
    insert_key_comm a b (sort_keys l) h.0.0 ∙ (rw (d, e) refl)
sort_keys_perm (Permᴰ.trans p q) h = sort_keys_perm p h ∙ sort_keys_perm q (IdsApart-perm p h)

Text-set : IsSet Text
Text-set = hlevel

-- Two orders of the same keys, no two with one `key_id`, have the same canonical JSON: the
-- fingerprint does not depend on the order in which the server sends the keys.
pub canonical_json-perm :
    (generation : ℕ) (a b : List CaBundleKey)
    → Perm a b
    → IdsApart a
    → canonical_json generation a ≡ canonical_json generation b
unfolding canonical_json
canonical_json-perm generation a b p h =
    ∥∥₁_elim p (Text-set _ _) (λ d. rw (sort_keys_perm d h) refl)
