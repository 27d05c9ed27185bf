-- ===== src/Bundle/Canonical.antt =====
-- src/protocol/ca_bundle.rs: sorting, escaping, and the two canonical encodings.
pub mod Escape
pub mod Sorting
pub mod Injective
pub mod Order
use mayfly_agent.Prelude.{ℕ, ◌+◌, ◌/◌, ◌%◌, List, [], ◌∷◌, ◌++◌, ltb, ◌==◌, if◌then◌else◌}
use mayfly_agent.Text.Chars.{Text, codes, text_le}
use mayfly_agent.Text.Decimal.{decimal}
use mayfly_agent.Text.Utf8.{as_bytes}
use mayfly_agent.Crates.{Crates}
use mayfly_agent.Bundle.Types.{CaBundleKey, fingerprint_prefix}

-- `sort_by` on the `key_id` is stable, so its result is that of an insertion sort.
unfoldable pub insert_key : CaBundleKey → List CaBundleKey → List CaBundleKey
insert_key k [] = k ∷ []
insert_key k (j ∷ js) =
    let later = j ∷ insert_key k js in if text_le k.key_id j.key_id then k ∷ j ∷ js else later

unfoldable pub sort_keys : List CaBundleKey → List CaBundleKey
sort_keys [] = []
sort_keys (k ∷ ks) = insert_key k (sort_keys ks)

-- A hexadecimal digit below 16.
unfoldable pub hex_digit : ℕ → ℕ
hex_digit n = if ltb n 10 then b'0' + n else 87 + n

unfoldable pub escape_char : ℕ → Text
unfolding hex_digit
escape_char c =
    if c == b'"'
    then 92 ∷ 34 ∷ []
    else if c == 92
    then 92 ∷ 92 ∷ []
    else if c == 10
    then 92 ∷ b'n' ∷ []
    else if c == 13
    then 92 ∷ b'r' ∷ []
    else if c == 9
    then 92 ∷ b't' ∷ []
    else if c == 8
    then 92 ∷ b'b' ∷ []
    else if c == 12
    then 92 ∷ b'f' ∷ []
    else if ltb c 0x20
    then 92 ∷ b'u' ∷ b'0' ∷ b'0' ∷ hex_digit (c / 16) ∷ hex_digit (c % 16) ∷ []
    else c ∷ []

-- `json_escape_into`, as the text that it appends.
unfoldable pub json_escape : Text → Text
json_escape [] = []
json_escape (c ∷ s) = escape_char c ++ json_escape s

-- One key object of the array.
unfoldable pub key_object : CaBundleKey → Text
key_object key =
    codes "{\"key_id\":\""
    ++ (json_escape key.key_id
        ++ (codes "\",\"public_key\":\"" ++ (json_escape key.public_key ++ codes "\"}")))

-- The loop over the sorted keys, a comma before each but the first.
unfoldable pub keys_from : ℕ → List CaBundleKey → Text
keys_from i [] = []
keys_from i (key ∷ keys) =
    (if ltb 0 i then codes "," else []) ++ (key_object key ++ keys_from (i + 1) keys)

unfoldable pub keys_array : List CaBundleKey → Text
keys_array sorted = codes "[" ++ (keys_from 0 sorted ++ codes "]")

unfoldable pub canonical_json : ℕ → List CaBundleKey → Text
canonical_json generation keys =
    codes "{\"generation\":"
    ++ (decimal generation ++ (codes ",\"keys\":" ++ (keys_array (sort_keys keys) ++ codes "}")))

unfoldable pub canonical_signing_payload : ℕ → ℕ → Text → Text → Text → List CaBundleKey → Text
canonical_signing_payload bundle_version generation fingerprint created_at expires_at keys =
    codes "{\"bundle_version\":"
    ++ (decimal bundle_version
        ++ (codes ",\"created_at\":\""
            ++ (json_escape created_at
                ++ (codes "\",\"expires_at\":\""
                    ++ (json_escape expires_at
                        ++ (codes "\",\"fingerprint\":\""
                            ++ (json_escape fingerprint
                                ++ (codes "\",\"generation\":"
                                    ++ (decimal generation
                                        ++ (codes ",\"keys\":"
                                            ++ (keys_array (sort_keys keys) ++ codes "}")))))))))))

-- `sha256:` and the digest of the canonical JSON in hexadecimal.
unfoldable pub compute_fingerprint : Crates → ℕ → List CaBundleKey → Text
compute_fingerprint lib generation keys =
    fingerprint_prefix ++ lib.hex_encode (lib.sha256 (as_bytes (canonical_json generation keys)))
