-- ===== src/Text/Utf8.antt =====
-- `str::as_bytes` and `String::from_utf8`, and their round trip.
use mathlib.Core.Option
use mayfly_agent.Prelude.{
  ℕ, zero, suc, ◌+◌, ◌-◌, ◌*◌, ◌/◌, ◌%◌, ◌≤◌, ◌<◌, ◌≡◌, refl, ◌∙◌, ◌⊎◌, inl, inr, true, false, ◌&&◌,
  Option, none, some, [], ◌∷◌, arith, ltb, leb, ◌==◌, if◌then◌else◌, Bool-cases, All,
}
use mayfly_agent.Text.Chars.{Text, Bytes}

-- A Unicode scalar value: no surrogate, and at most 0x10FFFF.
abbrev pub IsScalar : ℕ → Type 0
IsScalar c = (c < 0xD800) ⊎ ((0xDFFF < c) × (c < 0x110000))

encode_char : ℕ → Bytes → Bytes
encode_char c rest =
    if ltb c 0x80
    then c ∷ rest
    else if ltb c 0x800
    then (0xC0 + c / 64) ∷ (0x80 + c % 64) ∷ rest
    else if ltb c 0x10000
    then (0xE0 + c / 4096) ∷ (0x80 + c / 64 % 64) ∷ (0x80 + c % 64) ∷ rest
    else (0xF0 + c / 262144)
      ∷ (0x80 + c / 4096 % 64)
      ∷ (0x80 + c / 64 % 64)
      ∷ (0x80 + c % 64)
      ∷ rest

unfoldable pub as_bytes : Text → Bytes
unfolding encode_char
as_bytes [] = []
as_bytes (c ∷ s) = encode_char c (as_bytes s)

-- What the decoder expects next: a new character, or `left + 1` continuation bytes, the first of
-- them in a range that excludes overlong forms, surrogates and values above 0x10FFFF.
pub data Expect : Type 0 where
  start : Expect
  more : (left lo hi acc : ℕ) → Expect

first_byte : ℕ → Option Expect
first_byte b =
    if ltb b 0xC2
    then none
    else if ltb b 0xE0
    then some (more 0 0x80 0xBF (b - 0xC0))
    else if b == 0xE0
    then some (more 1 0xA0 0xBF 0)
    else if b == 0xED
    then some (more 1 0x80 0x9F 13)
    else if ltb b 0xF0
    then some (more 1 0x80 0xBF (b - 0xE0))
    else if b == 0xF0
    then some (more 2 0x90 0xBF 0)
    else if ltb b 0xF4
    then some (more 2 0x80 0xBF (b - 0xF0))
    else if b == 0xF4
    then some (more 2 0x80 0x8F 4)
    else none

decode : Expect → Bytes → Option Text
decode start [] = some []
decode (more left lo hi acc) [] = none
decode start (b ∷ s) = elim (ltb b 0x80) [
  | true ↦ Option.map (λ t. b ∷ t) (decode start s)
  | false ↦ elim (first_byte b) [ none ↦ none | some e ↦ decode e s ]
]
decode (more zero lo hi acc) (b ∷ s) = elim (leb lo b && leb b hi) [
  | true ↦ Option.map (λ t. (acc * 64 + (b - 0x80)) ∷ t) (decode start s)
  | false ↦ none
]
decode (more (suc left) lo hi acc) (b ∷ s) = elim (leb lo b && leb b hi) [
  | true ↦ decode (more left 0x80 0xBF (acc * 64 + (b - 0x80))) s
  | false ↦ none
]

unfoldable pub from_utf8 : Bytes → Option Text
unfolding decode first_byte
from_utf8 bytes = decode start bytes

decode_lead :
    (b : ℕ) (s : Bytes) (e : Expect)
    → 0x80 ≤ b
    → first_byte b ≡ some e
    → decode start (b ∷ s) ≡ decode e s
unfolding decode
decode_lead b s e h k = ground arith

decode_continue :
    (left lo hi acc b : ℕ) (s : Bytes)
    → lo ≤ b
    → b ≤ hi
    → decode (more (suc left) lo hi acc) (b ∷ s)
      ≡ decode (more left 0x80 0xBF (acc * 64 + (b - 0x80))) s
unfolding decode
decode_continue left lo hi acc b s h k = ground arith

decode_last :
    (lo hi acc b c : ℕ) (s : Bytes) (t : Text)
    → lo ≤ b
    → b ≤ hi
    → acc * 64 + (b - 0x80) ≡ c
    → decode start s ≡ some t
    → decode (more zero lo hi acc) (b ∷ s) ≡ some (c ∷ t)
unfolding decode
decode_last lo hi acc b c s t h k e d = ground arith

abbrev three_lo : ℕ → ℕ
three_lo q = if q == 0 then 0xA0 else 0x80

abbrev three_hi : ℕ → ℕ
three_hi q = if q == 13 then 0x9F else 0xBF

abbrev four_lo : ℕ → ℕ
four_lo q = if q == 0 then 0x90 else 0x80

abbrev four_hi : ℕ → ℕ
four_hi q = if q == 4 then 0x8F else 0xBF

first_byte_two : (q : ℕ) → 2 ≤ q → q < 32 → first_byte (0xC0 + q) ≡ some (more 0 0x80 0xBF q)
unfolding first_byte
first_byte_two q h k = ground arith

first_byte_three :
    (q : ℕ) → q < 16 → first_byte (0xE0 + q) ≡ some (more 1 (three_lo q) (three_hi q) q)
unfolding first_byte
first_byte_three q h = ground arith

first_byte_four : (q : ℕ) → q < 5 → first_byte (0xF0 + q) ≡ some (more 2 (four_lo q) (four_hi q) q)
unfolding first_byte
first_byte_four q h = ground arith

decode_two :
    (c : ℕ) (s : Bytes) (t : Text)
    → 0x80 ≤ c
    → c < 0x800
    → decode start s ≡ some t
    → decode start ((0xC0 + c / 64) ∷ (0x80 + c % 64) ∷ s) ≡ some (c ∷ t)
decode_two c s t lo hi h =
    decode_lead (0xC0 + c / 64) _ _ (omega arith)
      (first_byte_two (c / 64) (omega arith) (omega arith))
    ∙ decode_last 0x80 0xBF (c / 64) (0x80 + c % 64) c s t (omega arith) (omega arith) (omega arith)
        h

decode_three :
    (c : ℕ) (s : Bytes) (t : Text)
    → 0x800 ≤ c
    → c < 0x10000
    → IsScalar c
    → decode start s ≡ some t
    → decode start ((0xE0 + c / 4096) ∷ (0x80 + c / 64 % 64) ∷ (0x80 + c % 64) ∷ s) ≡ some (c ∷ t)
decode_three c s t lo hi sc h =
    decode_lead (0xE0 + c / 4096) _ _ (omega arith) (first_byte_three (c / 4096) (omega arith))
    ∙ decode_continue 0 (three_lo (c / 4096)) (three_hi (c / 4096)) (c / 4096) (0x80 + c / 64 % 64)
        _ (ground arith) (ground arith)
    ∙ decode_last 0x80 0xBF _ (0x80 + c % 64) c s t (omega arith) (omega arith) (omega arith) h

decode_four :
    (c : ℕ) (s : Bytes) (t : Text)
    → 0x10000 ≤ c
    → c < 0x110000
    → decode start s ≡ some t
    → decode start
        ((0xF0 + c / 262144) ∷ (0x80 + c / 4096 % 64) ∷ (0x80 + c / 64 % 64) ∷ (0x80 + c % 64) ∷ s)
      ≡ some (c ∷ t)
decode_four c s t lo hi h =
    decode_lead (0xF0 + c / 262144) _ _ (omega arith) (first_byte_four (c / 262144) (omega arith))
    ∙ decode_continue 1 (four_lo (c / 262144)) (four_hi (c / 262144)) (c / 262144)
        (0x80 + c / 4096 % 64) _ (ground arith) (ground arith)
    ∙ decode_continue 0 0x80 0xBF _ (0x80 + c / 64 % 64) _ (omega arith) (omega arith)
    ∙ decode_last 0x80 0xBF _ (0x80 + c % 64) c s t (omega arith) (omega arith) (omega arith) h

decode-encode_char :
    (c : ℕ) (s : Bytes) (t : Text)
    → IsScalar c
    → decode start s ≡ some t
    → decode start (encode_char c s) ≡ some (c ∷ t)
unfolding encode_char
decode-encode_char c s t sc h = elim (Bool-cases (ltb c 0x80)) [
  | inl one ↦ rw one (unfold decode in ground arith)
  | inr two ↦ rw two (elim (Bool-cases (ltb c 0x800)) [
    | inl e ↦ rw e (decode_two c s t (ground arith) (ground arith) h)
    | inr three ↦ rw three (elim (Bool-cases (ltb c 0x10000)) [
      | inl e ↦ rw e (decode_three c s t (ground arith) (ground arith) sc h)
      | inr four ↦ rw four (decode_four c s t (ground arith) (ground arith) h)
    ])
  ])
]

decode-as_bytes : (s : Text) → All IsScalar s → decode start (as_bytes s) ≡ some s
unfolding as_bytes
decode-as_bytes [] h = unfold decode in refl
decode-as_bytes (c ∷ s) h = decode-encode_char c (as_bytes s) s h.0 (decode-as_bytes s h.1)

-- A text of scalar values is read back from its bytes.
pub from_utf8-as_bytes : (s : Text) → All IsScalar s → from_utf8 (as_bytes s) ≡ some s
unfolding from_utf8
from_utf8-as_bytes s h = decode-as_bytes s h
