-- ===== src/Bundle/Canonical/Injective.antt =====
-- The signed payload determines the envelope.
use mathlib.Core.Path.{ap₂}
use mathlib.Core.List.{append_assoc}
use mayfly_agent.Prelude.{ℕ, ◌+◌, ◌<◌, ◌≡◌, refl, sym, ap, ◌∙◌, List, [], ◌∷◌, ◌++◌, arith, lt→ltb}
use mayfly_agent.Text.Chars.{Text, codes}
use mayfly_agent.Text.Decimal.{decimal_inj}
use mayfly_agent.Bundle.Types.{CaBundleKey}
use mayfly_agent.Bundle.Canonical.{
  keys_array, canonical_json, canonical_signing_payload, sort_keys, json_escape, key_object,
  keys_from,
}
use mayfly_agent.Bundle.Canonical.Escape.{json_escape_inj}

cancel : (p s t : Text) → p ++ s ≡ p ++ t → s ≡ t
cancel [] s t h = h
cancel (c ∷ p) s t h = cancel p s t (ground arith)

abbrev id_open : Text
id_open = codes "{\"key_id\":\""

abbrev key_open : Text
key_open = codes ",\"public_key\":\""

key_object-append :
    (k : CaBundleKey) (s : Text)
    → key_object k ++ s
      ≡ id_open
        ++ (json_escape k.key_id
            ++ (34 ∷ (key_open ++ (json_escape k.public_key ++ (34 ∷ 125 ∷ s)))))
unfolding key_object
key_object-append k s = simp append_assoc

key_object_inj :
    (c d : CaBundleKey) (s t : Text) → key_object c ++ s ≡ key_object d ++ t → (c ≡ d) × (s ≡ t)
key_object_inj c d s t h =
    let whole = sym (key_object-append c s) ∙ h ∙ key_object-append d t in
    let (ids, rest) = json_escape_inj c.key_id d.key_id _ _ (cancel id_open _ _ whole) in
    let (keys, after) = json_escape_inj c.public_key d.public_key _ _ (cancel key_open _ _ rest) in
    (λ i. record { key_id = ids i; public_key = keys i }, ground arith)

keys_from-append :
    (i : ℕ) (k : CaBundleKey) (ks : List CaBundleKey) (s : Text)
    → 0 < i
    → keys_from i (k ∷ ks) ++ s ≡ 44 ∷ (key_object k ++ (keys_from (i + 1) ks ++ s))
unfolding keys_from
keys_from-append i k ks s h =
    rw (lt→ltb 0 i h) (ap (λ t. 44 ∷ t) (append_assoc (key_object k) (keys_from (i + 1) ks) s))

keys_from-nil : (i : ℕ) (s : Text) → keys_from i [] ++ s ≡ s
unfolding keys_from
keys_from-nil i s = refl

keys_from_inj :
    (i j : ℕ) (a b : List CaBundleKey) (s t : Text)
    → 0 < i
    → 0 < j
    → keys_from i a ++ (93 ∷ s) ≡ keys_from j b ++ (93 ∷ t)
    → (a ≡ b) × (s ≡ t)
keys_from_inj i j [] [] s t hi hj h = unfold keys_from in ground arith
keys_from_inj i j [] (d ∷ b) s t hi hj h =
    ground (arith, sym (keys_from-nil i (93 ∷ s)) ∙ h ∙ keys_from-append j d b (93 ∷ t) hj)
keys_from_inj i j (c ∷ a) [] s t hi hj h =
    ground (arith, sym (keys_from-append i c a (93 ∷ s) hi) ∙ h ∙ keys_from-nil j (93 ∷ t))
keys_from_inj i j (c ∷ a) (d ∷ b) s t hi hj h =
    let whole : 44 ∷ (key_object c ++ (keys_from (i + 1) a ++ (93 ∷ s)))
        ≡ 44 ∷ (key_object d ++ (keys_from (j + 1) b ++ (93 ∷ t))) =
      sym (keys_from-append i c a (93 ∷ s) hi) ∙ h ∙ keys_from-append j d b (93 ∷ t) hj in
    let (heads, tails) = key_object_inj c d _ _ (cancel (44 ∷ []) _ _ whole) in
    let (rest, after) = keys_from_inj (i + 1) (j + 1) a b s t (omega arith) (omega arith) tails in
    (ap₂ (λ x y. x ∷ y) heads rest, after)

keys_array-append :
    (ks : List CaBundleKey) (s : Text) → keys_array ks ++ s ≡ 91 ∷ (keys_from 0 ks ++ (93 ∷ s))
unfolding keys_array
keys_array-append ks s = ap (λ t. 91 ∷ t) (append_assoc (keys_from 0 ks) (93 ∷ []) s)

keys_from_first :
    (k : CaBundleKey) (ks : List CaBundleKey) (s : Text)
    → keys_from 0 (k ∷ ks) ++ s ≡ key_object k ++ (keys_from 1 ks ++ s)
unfolding keys_from
keys_from_first k ks s = append_assoc (key_object k) (keys_from 1 ks) s

keys_from_zero_inj :
    (a b : List CaBundleKey) (s t : Text)
    → keys_from 0 a ++ (93 ∷ s) ≡ keys_from 0 b ++ (93 ∷ t)
    → (a ≡ b) × (s ≡ t)
keys_from_zero_inj [] [] s t h = unfold keys_from in ground arith
keys_from_zero_inj [] (d ∷ b) s t h = ground (
  arith,
  sym (keys_from-nil 0 (93 ∷ s))
      ∙ h
      ∙ keys_from_first d b (93 ∷ t)
      ∙ key_object-append d (keys_from 1 b ++ (93 ∷ t)),
)
keys_from_zero_inj (c ∷ a) [] s t h = ground (
  arith,
  sym (keys_from_first c a (93 ∷ s) ∙ key_object-append c (keys_from 1 a ++ (93 ∷ s)))
      ∙ h
      ∙ keys_from-nil 0 (93 ∷ t),
)
keys_from_zero_inj (c ∷ a) (d ∷ b) s t h =
    let (heads, tails) =
      key_object_inj c d _ _
        (sym (keys_from_first c a (93 ∷ s)) ∙ h ∙ keys_from_first d b (93 ∷ t)) in
    let (rest, after) = keys_from_inj 1 1 a b s t (omega arith) (omega arith) tails in
    (ap₂ (λ x y. x ∷ y) heads rest, after)

pub keys_array_inj :
    (a b : List CaBundleKey) (s t : Text)
    → keys_array a ++ s ≡ keys_array b ++ t
    → (a ≡ b) × (s ≡ t)
keys_array_inj a b s t h =
    keys_from_zero_inj a b s t
      (cancel (91 ∷ []) _ _ (sym (keys_array-append a s) ∙ h ∙ keys_array-append b t))

-- Two lists of keys with the same canonical JSON are the same up to order, and have one generation.
pub canonical_json_inj :
    (m n : ℕ) (a b : List CaBundleKey)
    → canonical_json m a ≡ canonical_json n b
    → (m ≡ n) × (sort_keys a ≡ sort_keys b)
unfolding canonical_json
canonical_json_inj m n a b h =
    let (numbers, rest) =
      decimal_inj m n 44 44 _ _ refl refl (cancel (codes "{\"generation\":") _ _ h) in
    (
      numbers,
      (keys_array_inj (sort_keys a) (sort_keys b) _ _ (cancel (codes ",\"keys\":") _ _ rest)).0,
    )

-- Two envelopes with the same signing payload have the same version, generation, fingerprint and
-- validity window, and the same keys up to order: the signature covers every field.
pub canonical_signing_payload_inj :
    (v w m n : ℕ) (f g c d e x : Text) (a b : List CaBundleKey)
    → canonical_signing_payload v m f c e a ≡ canonical_signing_payload w n g d x b
    → (v ≡ w) × (m ≡ n) × (f ≡ g) × (c ≡ d) × (e ≡ x) × (sort_keys a ≡ sort_keys b)
unfolding canonical_signing_payload
canonical_signing_payload_inj v w m n f g c d e x a b h =
    let (versions, h1) =
      decimal_inj v w 44 44 _ _ refl refl (cancel (codes "{\"bundle_version\":") _ _ h) in
    let (created, h2) = json_escape_inj c d _ _ (cancel (codes ",\"created_at\":\"") _ _ h1) in
    let (expires, h3) = json_escape_inj e x _ _ (cancel (codes ",\"expires_at\":\"") _ _ h2) in
    let (prints, h4) = json_escape_inj f g _ _ (cancel (codes ",\"fingerprint\":\"") _ _ h3) in
    let (numbers, h5) =
      decimal_inj m n 44 44 _ _ refl refl (cancel (codes ",\"generation\":") _ _ h4) in
    let (keys, _) =
      keys_array_inj (sort_keys a) (sort_keys b) _ _ (cancel (codes ",\"keys\":") _ _ h5) in
    (versions, numbers, prints, created, expires, keys)
