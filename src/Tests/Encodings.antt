-- ===== src/Tests/Encodings.antt =====
-- Instances of the theorems on the canonical encodings.
use mayfly_agent.Text.Chars.{Bytes, text_le, codes}
use mayfly_agent.Bundle.Canonical.Order.{canonical_json-perm, IdsApart}
use mayfly_agent.ConstantTime.{constant_time_eq_iff, constant_time_eq}
use mayfly_agent.Bundle.Canonical.Injective.{canonical_json_inj, canonical_signing_payload_inj}
use mayfly_agent.Bundle.Canonical.{insert_key, sort_keys, canonical_signing_payload, canonical_json}
use mathlib.Core.List.Perm
use mayfly_agent.Prelude.{ℕ, ◌≡◌, refl, ◌↔◌, true, [], ◌∷◌, arith}
use mayfly_agent.Tests.Toy.{key_a, key_b}

abbrev version : ℕ
version = 1

abbrev generation : ℕ
generation = 3

abbrev bytes_a : Bytes
bytes_a = 1 ∷ 2 ∷ []

abbrev bytes_b : Bytes
bytes_b = 1 ∷ 3 ∷ []

out_of_order : canonical_json 3 (key_b ∷ key_a ∷ []) ≡ canonical_json 3 (key_a ∷ key_b ∷ [])
unfolding canonical_json sort_keys insert_key text_le
out_of_order = refl

canonical_json_inj_example :
    (generation ≡ generation) × (sort_keys (key_b ∷ key_a ∷ []) ≡ sort_keys (key_a ∷ key_b ∷ []))
canonical_json_inj_example =
    canonical_json_inj generation generation (key_b ∷ key_a ∷ []) (key_a ∷ key_b ∷ []) out_of_order

ids_apart : IdsApart (key_b ∷ key_a ∷ [])
ids_apart = (((λ e. ground arith), tt), (tt, tt))

canonical_json-perm_example :
    canonical_json 3 (key_b ∷ key_a ∷ []) ≡ canonical_json 3 (key_a ∷ key_b ∷ [])
canonical_json-perm_example =
    canonical_json-perm 3 (key_b ∷ key_a ∷ []) (key_a ∷ key_b ∷ []) (Perm.swap key_a key_b [])
      ids_apart

same_payload :
    canonical_signing_payload 1 3 (codes "f") (codes "c") (codes "e") (key_b ∷ key_a ∷ [])
    ≡ canonical_signing_payload 1 3 (codes "f") (codes "c") (codes "e") (key_a ∷ key_b ∷ [])
unfolding canonical_signing_payload sort_keys insert_key text_le
same_payload = refl

canonical_signing_payload_inj_example :
    (version ≡ version)
    × (generation ≡ generation)
    × (codes "f" ≡ codes "f")
    × (codes "c" ≡ codes "c")
    × (codes "e" ≡ codes "e")
    × (sort_keys (key_b ∷ key_a ∷ []) ≡ sort_keys (key_a ∷ key_b ∷ []))
canonical_signing_payload_inj_example =
    canonical_signing_payload_inj version version generation generation (codes "f") (codes "f")
      (codes "c") (codes "c") (codes "e") (codes "e") (key_b ∷ key_a ∷ []) (key_a ∷ key_b ∷ [])
      same_payload

constant_time_eq_iff_example : (constant_time_eq bytes_a bytes_b ≡ true) ↔ (bytes_a ≡ bytes_b)
constant_time_eq_iff_example = constant_time_eq_iff bytes_a bytes_b
