-- ===== src/Ssh/TrustedCa/Base64.antt =====
-- The loop of `is_valid_base64` decides the grammar of padded base64.
use mayfly_agent.Prelude.{
  ℕ, zero, suc, ◌+◌, ◌-◌, ◌%◌, ◌≤◌, ◌<◌, ◌≡◌, refl, ap, true, [], ◌∷◌, ◌++◌, arith, length, all,
}
use mayfly_agent.Text.Chars.{Text, Bytes}
use mayfly_agent.Text.Utf8.{as_bytes}
use mayfly_agent.Ssh.TrustedCa.{is_base64_char, trailing_padding, check_bytes, is_valid_base64}

abbrev pub replicate : ℕ → ℕ → Bytes
replicate zero b = []
replicate (suc n) b = b ∷ replicate n b

-- A body of base64 characters and at most two `=`, in all a multiple of four bytes.
pub record IsPadded (bytes : Bytes) : Type 0 where
  pub body : Bytes
  pub padding : ℕ
  pub joined : bytes ≡ body ++ replicate padding b'='
  pub chars : all is_base64_char body ≡ true
  pub body_pos : 0 < length body
  pub padding_le : padding ≤ 2
  pub fours : length bytes % 4 ≡ 0

trailing_padding-le : (s : Bytes) → trailing_padding s ≤ length s
unfolding trailing_padding
trailing_padding-le [] = omega arith
trailing_padding-le (b ∷ s) = ground (arith, trailing_padding-le s)

-- Past the body only `=` passes.
check_bytes-padding :
    (n i : ℕ) (s : Bytes) → n ≤ i → check_bytes n i s ≡ true → s ≡ replicate (length s) b'='
unfolding check_bytes
check_bytes-padding n i [] h c = refl
check_bytes-padding n i (b ∷ s) h c = ground (arith, check_bytes-padding n (i + 1) s)

-- The loop splits the bytes at the end of the body.
check_bytes_split :
    (n k p i : ℕ) (s : Bytes)
    → i + k ≡ n
    → k + p ≡ length s
    → check_bytes n i s ≡ true
    → (body : Bytes) × (s ≡ body ++ replicate p b'=')
      × (all is_base64_char body ≡ true)
      × (length body ≡ k)
unfolding check_bytes
check_bytes_split n zero p i s e l c =
    let here : n ≤ i = omega arith in
    let len : length s ≡ p = omega arith in
    let padded : s ≡ replicate (length s) b'=' =
      check_bytes-padding n i s here (unfold check_bytes in c) in
    ([], rw len at padded, refl, refl)
check_bytes_split n (suc k) p i [] e l c = absurd (omega arith)
check_bytes_split n (suc k) p i (b ∷ s) e l c =
    let (body, joined, chars, len) =
      check_bytes_split n k p (i + 1) s (omega arith) (omega arith) (ground arith) in
    (b ∷ body, ap (λ t. b ∷ t) joined, ground arith, omega arith)

-- A blob that `is_valid_base64` accepts is a non-empty body of base64 characters, then at most two
-- `=`, and the number of bytes is a multiple of four.
pub is_valid_base64-IsPadded : (s : Text) → is_valid_base64 s ≡ true → IsPadded (as_bytes s)
unfolding is_valid_base64
is_valid_base64-IsPadded s h =
    let bytes = as_bytes s in
    let p = trailing_padding bytes in
    let n = length bytes - p in
    let short : p ≤ length bytes = trailing_padding-le bytes in
    let (body, joined, chars, len) =
      check_bytes_split n n p 0 bytes (omega arith) (omega arith) (ground arith) in
    record {
      body = body;
      padding = p;
      joined = joined;
      chars = chars;
      body_pos = ground arith;
      padding_le = ground arith;
      fours = ground arith;
    }
