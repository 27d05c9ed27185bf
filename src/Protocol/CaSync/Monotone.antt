-- ===== src/Protocol/CaSync/Monotone.antt =====
-- The generation that a later pass reads back never falls.
use mayfly_agent.Result.{◌>>=◌, first_ok, Result, ok, err}
use mayfly_agent.Protocol.CaSync.Load.{
  expected_signing_key, read_optional, read_optional_string, regressed, load_state, read_generation,
  parse_generation, trimmed_text,
}
use mayfly_agent.Protocol.CaSync.Service.{
  at_validation, signing_key_path, fingerprint_path, PersistedState, generation_path, at_load,
  CaSyncService, Files,
}
use mayfly_agent.Bundle.Accepted.{from_response_sound}
use mayfly_agent.Protocol.CaSync.Generation.{accept-IsChecked, synchronize_generation}
use mayfly_agent.Errors.{io, Error}
use mayfly_agent.Bundle.Validate.{unwrap_or_zero}
use mayfly_agent.Protocol.CaSync.Pass.{synchronize}
use mayfly_agent.Text.Trim.{trim, trim_newline, trim_plain, starts_plain, ends_plain}
use mayfly_agent.Bundle.Types.{CaBundleResponse}
use mayfly_agent.Crates.{Crates}
use mayfly_agent.Text.Decimal.{parse_u64-decimal, decimal_shape, decimal-all, decimal, u64_mod}
use mayfly_agent.Text.Utf8.{from_utf8-as_bytes, IsScalar, as_bytes}
use mayfly_agent.Text.Chars.{is_whitespace, is_ascii_digit, Text, Bytes}
use mayfly_agent.Prelude.{
  ℕ, ◌≤◌, ◌<◌, ◌≡◌, refl, sym, ap, ◌∙◌, inl, inr, true, false, Option, none, some, [], ◌∷◌, ◌++◌,
  arith, if◌then◌else◌, Bool-cases, is_empty, all, All,
}
use mayfly_agent.Protocol.CaSync.Step.{World}

digits_ends_plain : (s : Text) → all is_ascii_digit s ≡ true → ends_plain s ≡ true
unfolding ends_plain is_whitespace
digits_ends_plain [] h = refl
digits_ends_plain (c ∷ []) h = ground arith
digits_ends_plain (c ∷ d ∷ s) h = digits_ends_plain (d ∷ s) (ground arith)

digits_starts_plain : (s : Text) → all is_ascii_digit s ≡ true → starts_plain s ≡ true
unfolding is_whitespace
digits_starts_plain [] h = refl
digits_starts_plain (c ∷ s) h = ground arith

digits-IsScalar : (s : Text) → all is_ascii_digit s ≡ true → All IsScalar s
digits-IsScalar [] h = tt
digits-IsScalar (c ∷ s) h = (ground arith, digits-IsScalar s (ground arith))

All-append : (P : ℕ → Type 0) (s t : Text) → All P s → All P t → All P (s ++ t)
All-append P [] t hs ht = ht
All-append P (c ∷ s) t hs ht = (hs.0, All-append P s t hs.1 ht)

digits_trim :
    (s : Text) → is_empty s ≡ false → all is_ascii_digit s ≡ true → trim (s ++ 10 ∷ []) ≡ s
unfolding is_whitespace
digits_trim [] e h = absurd (ground arith)
digits_trim (c ∷ s) e h =
    trim_newline c s (first_plain c (ground arith)) (digits_ends_plain (c ∷ s) h)
  where
    first_plain : (c : ℕ) → is_ascii_digit c ≡ true → is_whitespace c ≡ false
    first_plain c h = ground arith

decimal_nonempty : (n : ℕ) → is_empty (decimal n) ≡ false
decimal_nonempty n = let (c, s, shape) = decimal_shape n in rw shape refl

-- What `write_generation` wrote is read back by `read_generation`.
pub trimmed_text-decimal :
    (n : ℕ) → trimmed_text (some (as_bytes (decimal n ++ 10 ∷ []))) ≡ ok (some (decimal n))
unfolding trimmed_text
trimmed_text-decimal n =
    let digits = decimal-all n in
    let scalar : All IsScalar (decimal n ++ 10 ∷ []) =
      All-append IsScalar (decimal n) (10 ∷ []) (digits-IsScalar (decimal n) digits)
        (ground arith, tt) in
    rw (from_utf8-as_bytes (decimal n ++ 10 ∷ []) scalar)
      (rw (digits_trim (decimal n) (decimal_nonempty n) digits) (rw (decimal_nonempty n) refl))

pub parse_generation-decimal :
    (n : ℕ) → n < u64_mod → parse_generation (some (decimal n)) ≡ ok (some n)
unfolding parse_generation
parse_generation-decimal n h =
    let digits = decimal-all n in
    rw
      (trim_plain (decimal n) (digits_starts_plain (decimal n) digits)
        (digits_ends_plain (decimal n) digits))
      (rw (parse_u64-decimal n h) refl)

module _ (service : CaSyncService) where
  -- The reading of the generation file depends on its content only.
  recorded : Option Bytes → Result Error (Option ℕ)
  recorded bytes =
      (if service.can_read at_load generation_path then ok bytes else err io)
      >>= trimmed_text
      >>= parse_generation

  read_generation-recorded :
      (files : Files) → read_generation service files ≡ recorded files.generation
  unfolding read_generation read_optional_string read_optional recorded
  read_generation-recorded files = elim (Bool-cases (service.can_read at_load generation_path)) [
    | inl e ↦ rw e refl
    | inr e ↦ rw e refl
  ]

  recorded-decimal :
      (n m : ℕ)
      → n < u64_mod
      → recorded (some (as_bytes (decimal n ++ 10 ∷ []))) ≡ ok (some m)
      → n ≡ m
  unfolding recorded
  recorded-decimal n m bound h = elim (Bool-cases (service.can_read at_load generation_path)) [
    | inl e ↦
        let read : parse_generation (some (decimal n)) ≡ ok (some m) =
          rw (e, trimmed_text-decimal n) at h in
        let back : ok (some n) ≡ ok (some m) = sym (parse_generation-decimal n bound) ∙ read in cc
    | inr e ↦ absurd (let bad : err io ≡ ok (some m) = rw e at h in cc)
  ]

  -- `serde` reads the generation of a bundle as a u64.
  abbrev pub ReadsU64 : Type 0
  ReadsU64 =
      (bytes : Bytes) (raw : CaBundleResponse)
      → service.bundle_from_json bytes ≡ some raw
      → unwrap_or_zero raw.generation < u64_mod

  pub load_state-generation :
      (files : Files) (persisted : PersistedState)
      → load_state service files ≡ ok persisted
      → read_generation service files ≡ ok persisted.generation
  unfolding load_state
  load_state-generation files persisted h =
      let (g, (h1, eg)) = first_ok (read_generation service files) _ h in
      let (f, (h2, ef)) =
        first_ok (read_optional_string service at_load fingerprint_path files) _ h1 in
      let (k, (h3, ek)) =
        first_ok (read_optional_string service at_load signing_key_path files) _ h2 in
      let same : g ≡ persisted.generation = cc in eg ∙ ap ok same

  pub not_regressed-le :
      (recorded_before : Option ℕ) (prev offered : ℕ)
      → recorded_before ≡ some prev
      → regressed recorded_before offered ≡ false
      → prev ≤ offered
  not_regressed-le none prev offered e h = absurd (cc)
  not_regressed-le (some p) prev offered e h = ground arith

  -- The generation that the state file holds never falls: what is read back after a pass is at
  -- least what was read before it, whatever server, helper and file system do in between. It is
  -- assumed that serde reads the generation of a bundle as a u64.
  pub synchronize_monotone :
      (lib : Crates) (w : World) (before later : ℕ)
      → ReadsU64
      → read_generation service w.files ≡ ok (some before)
      → read_generation service (synchronize lib service w).0.files ≡ ok (some later)
      → before ≤ later
  synchronize_monotone lib w before later u64 hb hl =
      let after = (synchronize lib service w).0 in
      let read_later : recorded after.files.generation ≡ ok (some later) =
        sym (read_generation-recorded after.files) ∙ hl in
      let read_before : recorded w.files.generation ≡ ok (some before) =
        sym (read_generation-recorded w.files) ∙ hb in
      elim (synchronize_generation lib service w) [
        | inl kept ↦
            let same : ok (some before) ≡ ok (some later) =
              sym read_before ∙ ap recorded (sym kept) ∙ read_later in
            let equal : before ≡ later = cc in omega arith
        | inr (bundle, (a, stored)) ↦
            let checked =
              accept-IsChecked lib service a.persisted a.offered.response bundle
                a.offered.accepted in
            let sound =
              from_response_sound lib checked.raw (service.now at_validation)
                (expected_signing_key service a.persisted) bundle checked.validated in
            let bound : bundle.generation < u64_mod =
              rw sound.generation (u64 a.offered.response.body checked.raw checked.read) in
            let is_later : bundle.generation ≡ later =
              recorded-decimal bundle.generation later bound
                (ap recorded (sym stored) ∙ read_later) in
            let loaded : ok a.persisted.generation ≡ ok (some before) =
              sym (load_state-generation w.files a.persisted a.offered.loaded) ∙ hb in
            let was : a.persisted.generation ≡ some before = cc in
            let le : before ≤ bundle.generation =
              not_regressed-le a.persisted.generation before bundle.generation was
                a.not_regressed in
            omega arith
      ]
