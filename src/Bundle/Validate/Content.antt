-- ===== src/Bundle/Validate/Content.antt =====
-- The keys of an accepted bundle: bounded in number, ordered, and pairwise different.
use mayfly_agent.Prelude.{
  ◌≤◌, ◌<◌, ◌≡◌, ◌≢◌, inl, inr, true, false, List, [], ◌∷◌, map, arith, Bool-cases, length, All,
}
use mayfly_agent.Text.Chars.{
  Text, text_eq_iff, text_le, text_le_total, text_le_trans, text_le_antisym,
}
use mayfly_agent.Text.Utf8.{as_bytes}
use mayfly_agent.Result.{ok}
use mayfly_agent.Crates.{Crates}
use mayfly_agent.ConstantTime.{constant_time_eq_iff}
use mayfly_agent.Bundle.Types.{CaBundleKey, CaBundleResponse}
use mayfly_agent.Bundle.Canonical.{sort_keys, compute_fingerprint}
use mayfly_agent.Bundle.Canonical.Sorting.{IsBelow, IsSorted, sort_keys-IsSorted}
use mayfly_agent.Bundle.Validate.{
  unwrap_or_default, unwrap_or_zero, validate_keys, has_equal_neighbours, insert_text, sort_texts,
  fingerprints_equal, validate_content,
}

abbrev pub ids : List CaBundleKey → List Text
ids = map (λ (k : CaBundleKey). k.key_id)

abbrev pub public_keys : List CaBundleKey → List Text
public_keys = map (λ (k : CaBundleKey). k.public_key)

-- No text stands twice in the list.
abbrev pub IsDistinct : List Text → Type 0
IsDistinct [] = Unit
IsDistinct (s ∷ ss) = All (λ t. s ≢ t) ss × IsDistinct ss

abbrev TextsBelow : Text → List Text → Type 0
TextsBelow s = All (λ t. text_le s t ≡ true)

abbrev TextsSorted : List Text → Type 0
TextsSorted [] = Unit
TextsSorted (s ∷ ss) = TextsBelow s ss × TextsSorted ss

TextsBelow-insert_text :
    (s t : Text) (ts : List Text)
    → text_le s t ≡ true
    → TextsBelow s ts
    → TextsBelow s (insert_text t ts)
unfolding insert_text
TextsBelow-insert_text s t [] h b = (h, tt)
TextsBelow-insert_text s t (u ∷ ts) h b = elim (Bool-cases (text_le t u)) [
  | inl e ↦ rw e (h, b)
  | inr e ↦ rw e (b.0, TextsBelow-insert_text s t ts h b.1)
]

TextsBelow-trans :
    (s t : Text) (ts : List Text) → text_le s t ≡ true → TextsBelow t ts → TextsBelow s ts
TextsBelow-trans s t [] h b = tt
TextsBelow-trans s t (u ∷ ts) h b = (text_le_trans s t u h b.0, TextsBelow-trans s t ts h b.1)

insert_text-TextsSorted :
    (s : Text) (ts : List Text) → TextsSorted ts → TextsSorted (insert_text s ts)
unfolding insert_text
insert_text-TextsSorted s [] h = (tt, tt)
insert_text-TextsSorted s (t ∷ ts) h = elim (Bool-cases (text_le s t)) [
  | inl e ↦ rw e ((e, TextsBelow-trans s t ts e h.0), h)
  | inr e ↦
      let back : text_le t s ≡ true = ground (arith, text_le_total s t) in
      rw e (TextsBelow-insert_text t s ts back h.0, insert_text-TextsSorted s ts h.1)
]

sort_texts-TextsSorted : (ss : List Text) → TextsSorted (sort_texts ss)
unfolding sort_texts
sort_texts-TextsSorted [] = tt
sort_texts-TextsSorted (s ∷ ss) =
    insert_text-TextsSorted s (sort_texts ss) (sort_texts-TextsSorted ss)

IsSorted-ids : (ks : List CaBundleKey) → IsSorted ks → TextsSorted (ids ks)
IsSorted-ids [] s = tt
IsSorted-ids (k ∷ ks) s = (below ks s.0, IsSorted-ids ks s.1)
  where
    below : (js : List CaBundleKey) → IsBelow k js → TextsBelow k.key_id (ids js)
    below [] b = tt
    below (j ∷ js) b = (b.0, below js b.1)

-- Something above the next text cannot be the first one again.
ne_later :
    (s t : Text) (ts : List Text)
    → text_le s t ≡ true
    → s ≢ t
    → TextsBelow t ts
    → All (λ u. s ≢ u) ts
ne_later s t [] h d b = tt
ne_later s t (u ∷ ts) h d b = (λ e. d (text_le_antisym s t h (rw e b.0)), ne_later s t ts h d b.1)

-- In a sorted list, equal texts are neighbours.
sorted-IsDistinct :
    (ss : List Text) → TextsSorted ss → has_equal_neighbours ss ≡ false → IsDistinct ss
unfolding has_equal_neighbours
sorted-IsDistinct [] s h = tt
sorted-IsDistinct (a ∷ []) s h = (tt, tt)
sorted-IsDistinct (a ∷ b ∷ rest) s h =
    let differ : a ≢ b = λ e. ground (arith, (text_eq_iff a b).1 e) in
    let later = sorted-IsDistinct (b ∷ rest) s.1 (ground arith) in
    ((differ, ne_later a b rest s.0.0 differ s.1.0), later)

-- The content of an accepted response.
pub record IsWellFormed (lib : Crates) (raw : CaBundleResponse) : Type 0 where
  pub generation_pos : 0 < unwrap_or_zero raw.generation
  pub some_keys : 1 ≤ length raw.keys
  pub keys_bounded : length raw.keys ≤ 64
  pub keys_valid : validate_keys lib raw.keys ≡ ok tt
  pub ids_distinct : IsDistinct (ids (sort_keys raw.keys))
  pub public_keys_distinct : IsDistinct (sort_texts (public_keys raw.keys))
  pub fingerprint :
      as_bytes (compute_fingerprint lib (unwrap_or_zero raw.generation) (sort_keys raw.keys))
      ≡ as_bytes (unwrap_or_default raw.fingerprint)

validate_content_gates :
    (lib : Crates) (raw : CaBundleResponse)
    → validate_content lib raw ≡ ok tt
    → (0 < unwrap_or_zero raw.generation)
      × (1 ≤ length raw.keys)
      × (length raw.keys ≤ 64)
      × (validate_keys lib raw.keys ≡ ok tt)
      × (has_equal_neighbours (ids (sort_keys raw.keys)) ≡ false)
      × (has_equal_neighbours (sort_texts (public_keys raw.keys)) ≡ false)
      × (fingerprints_equal
            (compute_fingerprint lib (unwrap_or_zero raw.generation) (sort_keys raw.keys))
            (unwrap_or_default raw.fingerprint)
          ≡ true)
unfolding validate_content
validate_content_gates lib raw h = ground arith

pub validate_content-IsWellFormed :
    (lib : Crates) (raw : CaBundleResponse)
    → validate_content lib raw ≡ ok tt
    → IsWellFormed lib raw
unfolding fingerprints_equal
validate_content-IsWellFormed lib raw h =
    let (pos, some_keys, bounded, valid, ids_apart, keys_apart, print) =
      validate_content_gates lib raw h in
    record {
      generation_pos = pos;
      some_keys = some_keys;
      keys_bounded = bounded;
      keys_valid = valid;
      ids_distinct =
          sorted-IsDistinct (ids (sort_keys raw.keys))
            (IsSorted-ids (sort_keys raw.keys) (sort_keys-IsSorted raw.keys)) ids_apart;
      public_keys_distinct =
          sorted-IsDistinct (sort_texts (public_keys raw.keys))
            (sort_texts-TextsSorted (public_keys raw.keys)) keys_apart;
      fingerprint = (constant_time_eq_iff _ _).0 print;
    }
