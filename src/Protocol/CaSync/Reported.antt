-- ===== src/Protocol/CaSync/Reported.antt =====
-- The generation that a pass reports, against the one that the state file holds.
use mayfly_agent.Protocol.CaSync.Service.{
  last_sync_path, last_success_path, at_success, at_contact, status_not_modified, PersistedState,
  rolled_back, applied, BundleApplyOutcome, at_load, Files, CaSyncService, SyncOutcome,
  not_modified, unchanged, updated, generation_path,
}
use mayfly_agent.Protocol.CaSync.Load.{
  accept, fetch_bundle, load_state, parse_generation, trimmed_text, read_generation, read_optional,
  read_optional_string,
}
use mayfly_agent.Protocol.CaSync.Monotone.{
  load_state-generation, parse_generation-decimal, trimmed_text-decimal,
}
use mayfly_agent.Protocol.CaSync.Step.{
  write_timestamp, persist_pin_if_needed, acknowledge, persist_after_apply, World,
}
use mayfly_agent.Protocol.CaSync.Pass.{
  same_fingerprint, synchronize, settle, process, report_rollback, report_applied, conclude,
  same_generation, apply,
}
use mayfly_agent.Protocol.Http.{HttpResponse}
use mathlib.Core.Path.{subst}
use mayfly_agent.Result.{◌>>=◌, err, ok, Result}
use mayfly_agent.Protocol.CaSync.Updated.{next-ok}
use mayfly_agent.Errors.{io, Error}
use mayfly_agent.Bundle.Types.{CaBundle}
use mayfly_agent.Text.Decimal.{decimal, u64_mod}
use mayfly_agent.Text.Utf8.{as_bytes}
use mayfly_agent.Bundle.Validate.{unwrap_or_zero}
use mayfly_agent.Text.Chars.{Bytes}
use mayfly_agent.Crates.{Crates}
use mayfly_agent.Prelude.{
  ℕ, ◌≤◌, ◌<◌, ◌≡◌, refl, sym, ap, inl, inr, true, ◌&&◌, Option, none, some, [], ◌∷◌, ◌++◌, arith,
  ◌==◌, Bool-cases, &&-eq-true,
}

-- What the content of the generation file says.
unfoldable pub stored : Option Bytes → Result Error (Option ℕ)
stored bytes = trimmed_text bytes >>= parse_generation

unfoldable pub generation_of : SyncOutcome → ℕ
generation_of (not_modified generation) = generation
generation_of (unchanged generation) = generation
generation_of (updated generation fingerprint acknowledged) = generation

-- The stored number, where none counts as zero, is at least this one.
abbrev pub Covers : Result Error (Option ℕ) → ℕ → Type 0
Covers (err e) n = ⊥
Covers (ok none) n = n ≡ 0
Covers (ok (some g)) n = n ≤ g

pub Covers-zero_or : (g : Option ℕ) → Covers (ok g) (unwrap_or_zero g)
Covers-zero_or none = refl
Covers-zero_or (some g) = omega arith

pub stored-decimal :
    (n : ℕ) → n < u64_mod → stored (some (as_bytes (decimal n ++ 10 ∷ []))) ≡ ok (some n)
unfolding stored
stored-decimal n bound = rw (trimmed_text-decimal n) (parse_generation-decimal n bound)

-- A pass reads the same, where the file can be read.
pub read_generation-stored :
    (service : CaSyncService) (files : Files) (g : Option ℕ)
    → read_generation service files ≡ ok g
    → stored files.generation ≡ ok g
unfolding read_generation read_optional_string read_optional stored
read_generation-stored service files g h =
    elim (Bool-cases (service.can_read at_load generation_path)) [
      | inl e ↦ rw e at h
      | inr e ↦ absurd (let bad : err io ≡ ok g = rw e at h in cc)
    ]

same_generation-eq :
    (recorded : Option ℕ) (offered : ℕ)
    → same_generation recorded offered ≡ true
    → unwrap_or_zero recorded ≡ offered
same_generation-eq none offered h = absurd (cc)
same_generation-eq (some prev) offered h = ground arith

module _ (lib : Crates) (service : CaSyncService) (v : World) where
  -- A pass that reports no update reports what was recorded when it began.
  abbrev pub Reports : Option ℕ → SyncOutcome → Type 0
  Reports recorded (not_modified generation) = generation ≡ unwrap_or_zero recorded
  Reports recorded (unchanged generation) = generation ≡ unwrap_or_zero recorded
  Reports recorded (updated generation fingerprint acknowledged) = Unit

  conclude-Reports :
      (recorded : Option ℕ) (bundle : CaBundle) (ran : BundleApplyOutcome) (outcome : SyncOutcome)
      (w : World)
      → conclude lib service bundle ran w ≡ (v, ok outcome)
      → Reports recorded outcome
  unfolding conclude
  conclude-Reports recorded bundle applied outcome w h =
      let (x, (_, (_, h1))) = next-ok (persist_after_apply lib service bundle w) _ h in
      let (y, (acknowledged, (_, h2))) =
        next-ok (acknowledge lib service (report_applied bundle) x) _ h1 in
      let same : updated bundle.generation bundle.fingerprint acknowledged ≡ outcome = cc in
      subst (Reports recorded) same tt
  conclude-Reports recorded bundle rolled_back outcome w h =
      let (x, (_, (_, h1))) = next-ok (acknowledge lib service (report_rollback bundle) w) _ h in
      absurd (cc)

  settle-Reports :
      (persisted : PersistedState) (bundle : CaBundle) (outcome : SyncOutcome) (w : World)
      → settle lib service persisted bundle w ≡ (v, ok outcome)
      → Reports persisted.generation outcome
  unfolding settle
  settle-Reports persisted bundle outcome w h =
      elim (Bool-cases (
        same_generation persisted.generation bundle.generation
        && same_fingerprint persisted.fingerprint bundle.fingerprint)) [
          | inl e ↦
              let same = rw e at h in
              let (x, (_, (_, h1))) = next-ok (persist_pin_if_needed service bundle w) _ same in
              let (y, (_, (_, h2))) =
                next-ok (write_timestamp lib service at_success last_success_path x) _ h1 in
              let reported : unchanged bundle.generation ≡ outcome = cc in
              let both = &&-eq-true (same_generation persisted.generation bundle.generation) _ e in
              subst (Reports persisted.generation) reported
                (sym (same_generation-eq persisted.generation bundle.generation both.0))
          | inr e ↦
              let new = rw e at h in
              let (x, (ran, (_, h1))) = next-ok (apply service bundle w) _ new in
              conclude-Reports persisted.generation bundle ran outcome x h1
        ]

  process-Reports :
      (persisted : PersistedState) (response : HttpResponse) (outcome : SyncOutcome) (w : World)
      → process lib service persisted response w ≡ (v, ok outcome)
      → Reports persisted.generation outcome
  unfolding process
  process-Reports persisted response outcome w h =
      elim (Bool-cases (response.status == status_not_modified)) [
        | inl e ↦
            let old = rw e at h in
            let (u, (_, (_, h1))) =
              next-ok (write_timestamp lib service at_success last_success_path w) _ old in
            let reported : not_modified (unwrap_or_zero persisted.generation) ≡ outcome = cc in
            subst (Reports persisted.generation) reported refl
        | inr e ↦
            let new = rw e at h in
            let (u, (bundle, (_, h1))) = next-ok (w, accept lib service persisted response) _ new in
            settle-Reports persisted bundle outcome u h1
      ]

  pub synchronize-Reports :
      (outcome : SyncOutcome) (w : World)
      → synchronize lib service w ≡ (v, ok outcome)
      → (g : Option ℕ) × (stored w.files.generation ≡ ok g) × Reports g outcome
  unfolding synchronize
  synchronize-Reports outcome w h =
      let (x, (persisted, (loaded, h1))) = next-ok (w, load_state service w.files) _ h in
      let (y, (response, (_, h2))) =
        next-ok (x, fetch_bundle lib service persisted.fingerprint) _ h1 in
      let (z, (_, (_, h3))) =
        next-ok (write_timestamp lib service at_contact last_sync_path y) _ h2 in
      let was : load_state service w.files ≡ ok persisted =
        ap (λ (t : World × Result Error PersistedState). t.1) loaded in
      (
        persisted.generation,
        read_generation-stored service w.files persisted.generation
            (load_state-generation service w.files persisted was),
        process-Reports persisted response outcome z h3,
      )
