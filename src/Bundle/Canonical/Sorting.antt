-- ===== src/Bundle/Canonical/Sorting.antt =====
-- Sorting by `key_id`: the result is ordered and has the keys that were given.
use mathlib.Core.List.{Perm}
use mathlib.Core.List.Perm
use mayfly_agent.Prelude.{◌≡◌, refl, inl, inr, true, List, [], ◌∷◌, arith, Bool-cases, All}
use mayfly_agent.Text.Chars.{text_le, text_le_total, text_le_trans}
use mayfly_agent.Bundle.Types.{CaBundleKey}
use mayfly_agent.Bundle.Canonical.{insert_key, sort_keys}

-- Every later key has a `key_id` that is not less.
abbrev pub IsBelow : CaBundleKey → List CaBundleKey → Type 0
IsBelow k = All (λ j. text_le k.key_id j.key_id ≡ true)

abbrev pub IsSorted : List CaBundleKey → Type 0
IsSorted [] = Unit
IsSorted (k ∷ ks) = IsBelow k ks × IsSorted ks

IsBelow-insert_key :
    (k j : CaBundleKey) (js : List CaBundleKey)
    → text_le k.key_id j.key_id ≡ true
    → IsBelow k js
    → IsBelow k (insert_key j js)
unfolding insert_key
IsBelow-insert_key k j [] h b = (h, tt)
IsBelow-insert_key k j (i ∷ js) h b = elim (Bool-cases (text_le j.key_id i.key_id)) [
  | inl e ↦ rw e (h, b)
  | inr e ↦ rw e (b.0, IsBelow-insert_key k j js h b.1)
]

IsBelow-trans :
    (k j : CaBundleKey) (js : List CaBundleKey)
    → text_le k.key_id j.key_id ≡ true
    → IsBelow j js
    → IsBelow k js
IsBelow-trans k j [] h b = tt
IsBelow-trans k j (i ∷ js) h b =
    (text_le_trans k.key_id j.key_id i.key_id h b.0, IsBelow-trans k j js h b.1)

insert_key-IsSorted :
    (k : CaBundleKey) (ks : List CaBundleKey) → IsSorted ks → IsSorted (insert_key k ks)
unfolding insert_key
insert_key-IsSorted k [] s = (tt, tt)
insert_key-IsSorted k (j ∷ js) s = elim (Bool-cases (text_le k.key_id j.key_id)) [
  | inl e ↦ rw e ((e, IsBelow-trans k j js e s.0), s)
  | inr e ↦
      let back : text_le j.key_id k.key_id ≡ true =
        ground (arith, text_le_total k.key_id j.key_id) in
      rw e (IsBelow-insert_key j k js back s.0, insert_key-IsSorted k js s.1)
]

-- After sorting, no key has a `key_id` that is greater than that of a later key.
pub sort_keys-IsSorted : (ks : List CaBundleKey) → IsSorted (sort_keys ks)
unfolding sort_keys
sort_keys-IsSorted [] = tt
sort_keys-IsSorted (k ∷ ks) = insert_key-IsSorted k (sort_keys ks) (sort_keys-IsSorted ks)

insert_key-perm : (k : CaBundleKey) (ks : List CaBundleKey) → Perm (insert_key k ks) (k ∷ ks)
unfolding insert_key
insert_key-perm k [] = Perm.refl (k ∷ [])
insert_key-perm k (j ∷ js) = elim (Bool-cases (text_le k.key_id j.key_id)) [
  | inl e ↦ rw e (Perm.refl (k ∷ j ∷ js))
  | inr e ↦ rw e (Perm.trans (Perm.cons j (insert_key-perm k js)) (Perm.swap k j js))
]

pub sort_keys-perm : (ks : List CaBundleKey) → Perm (sort_keys ks) ks
unfolding sort_keys
sort_keys-perm [] = Perm.refl []
sort_keys-perm (k ∷ ks) =
    Perm.trans (insert_key-perm k (sort_keys ks)) (Perm.cons k (sort_keys-perm ks))

-- A sorted list is left as it is.
insert_key_below :
    (k : CaBundleKey) (ks : List CaBundleKey) → IsBelow k ks → insert_key k ks ≡ k ∷ ks
unfolding insert_key
insert_key_below k [] b = refl
insert_key_below k (j ∷ js) b = rw b.0

pub sort_keys_sorted : (ks : List CaBundleKey) → IsSorted ks → sort_keys ks ≡ ks
unfolding sort_keys
sort_keys_sorted [] s = refl
sort_keys_sorted (k ∷ ks) s = rw (sort_keys_sorted ks s.1) (insert_key_below k ks s.0)
