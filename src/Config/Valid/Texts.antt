-- ===== src/Config/Valid/Texts.antt =====
-- src/config.rs: the characters of a machine id and the components of a managed path, described
-- without the tests of the source.
use mayfly_agent.Prelude.{
  ℕ, ◌≤◌, ◌≡◌, refl, ◌↔◌, ◌⊎◌, Bool, true, false, List, [], ◌∷◌, arith, any, all, All,
}
use mayfly_agent.Text.Chars.{codes, is_ascii_alphanumeric, text_eq, text_eq_iff, Text}
use mayfly_agent.Text.Lines.{split}
use mayfly_agent.Identity.Enrollment.{is_machine_id_char}
use mayfly_agent.Config.Validate.{has_parent_dir}

module _ {A : Type 0} (P : A → Type 0) where
  all-All :
      (p : A → Bool) → ((x : A) → (p x ≡ true) ↔ P x) → (xs : List A) → (all p xs ≡ true) ↔ All P xs
  all-All p test [] = (λ h. tt, λ h. refl)
  all-All p test (x ∷ xs) = (
    λ h. ((test x).0 (ground arith), (all-All p test xs).0 (ground arith)),
    λ (first, rest). rw ((test x).1 first, (all-All p test xs).1 rest) refl,
  )

  any-All :
      (p : A → Bool)
      → ((x : A) → (p x ≡ false) ↔ P x)
      → (xs : List A) → (any p xs ≡ false) ↔ All P xs
  any-All p test [] = (λ h. tt, λ h. refl)
  any-All p test (x ∷ xs) = (
    λ h. ((test x).0 (ground arith), (any-All p test xs).0 (ground arith)),
    λ (first, rest). rw ((test x).1 first, (any-All p test xs).1 rest) refl,
  )

-- An ASCII letter, a digit, a dash, an underscore or a dot.
abbrev pub IsIdChar : ℕ → Type 0
IsIdChar c =
    ((b'0' ≤ c) × (c ≤ b'9'))
    ⊎ (((b'A' ≤ c) × (c ≤ b'Z'))
        ⊎ (((b'a' ≤ c) × (c ≤ b'z')) ⊎ ((c ≡ b'-') ⊎ ((c ≡ b'_') ⊎ (c ≡ b'.')))))

is_machine_id_char_iff : (c : ℕ) → (is_machine_id_char c ≡ true) ↔ IsIdChar c
unfolding is_ascii_alphanumeric
is_machine_id_char_iff c = (λ h. ground arith, λ h. ground arith)

pub all_id_chars_iff : (text : Text) → (all is_machine_id_char text ≡ true) ↔ All IsIdChar text
all_id_chars_iff = all-All IsIdChar is_machine_id_char is_machine_id_char_iff

-- Not `..`.
abbrev pub IsNotParent : Text → Type 0
IsNotParent component = ¬ (component ≡ codes "..")

false-not : (b : Bool) (P : Type 0) → (b ≡ true) ↔ P → (b ≡ false) ↔ (¬ P)
false-not true P (to, from) = (λ h. absurd (cc), λ h. absurd (h (to refl)))
false-not false P (to, from) = (λ h holds. let back = from holds in absurd (cc), λ h. refl)

-- No component of the path, as slashes part it, is `..`.
pub has_parent_dir_iff :
    (path : Text) → (has_parent_dir path ≡ false) ↔ All IsNotParent (split b'/' path)
unfolding has_parent_dir
has_parent_dir_iff path =
    any-All IsNotParent (λ c. text_eq c (codes ".."))
      (λ c. false-not (text_eq c (codes "..")) (c ≡ codes "..") (text_eq_iff c (codes "..")))
      (split b'/' path)
