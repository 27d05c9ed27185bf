-- ===== src/Protocol/CaSync/Covered.antt =====
-- After a pass the state file holds at least the generation that the pass reports, and at least
-- what it held before.
use mayfly_agent.Protocol.CaSync.Load.{expected_signing_key, regressed}
use mayfly_agent.Protocol.CaSync.Service.{
  at_validation, SyncOutcome, PersistedState, Files, CaSyncService, not_modified, unchanged,
  updated,
}
use mayfly_agent.Bundle.Accepted.{from_response_sound}
use mayfly_agent.Protocol.CaSync.Monotone.{load_state-generation, ReadsU64}
use mayfly_agent.Protocol.CaSync.Reported.{
  stored-decimal, Covers-zero_or, read_generation-stored, synchronize-Reports, Reports, stored,
  generation_of, Covers,
}
use mayfly_agent.Protocol.CaSync.Generation.{accept-IsChecked, synchronize_generation}
use mathlib.Core.Path.{subst}
use mayfly_agent.Protocol.CaSync.Updated.{synchronize_updated}
use mayfly_agent.Text.Decimal.{u64_mod}
use mayfly_agent.Protocol.CaSync.Keeps.{IsOffered}
use mayfly_agent.Bundle.Validate.{unwrap_or_zero}
use mayfly_agent.Protocol.CaSync.Pass.{synchronize}
use mayfly_agent.Bundle.Types.{CaBundle}
use mayfly_agent.Protocol.CaSync.Step.{World}
use mayfly_agent.Result.{ok}
use mayfly_agent.Crates.{Crates}
use mayfly_agent.Prelude.{ℕ, ◌≤◌, ◌<◌, ◌≡◌, sym, ap, inl, inr, false, Option, none, some, arith}

offered_bound :
    (lib : Crates) (service : CaSyncService) (files : Files) (persisted : PersistedState)
    (bundle : CaBundle)
    → ReadsU64 service
    → IsOffered lib service files persisted bundle
    → bundle.generation < u64_mod
offered_bound lib service files persisted bundle u64 o =
    let checked = accept-IsChecked lib service persisted o.response bundle o.accepted in
    let sound =
      from_response_sound lib checked.raw (service.now at_validation)
        (expected_signing_key service persisted) bundle checked.validated in
    rw sound.generation (u64 o.response.body checked.raw checked.read)

advance-Covers :
    (recorded : Option ℕ) (offered n : ℕ)
    → regressed recorded offered ≡ false
    → Covers (ok recorded) n
    → n ≤ offered
advance-Covers none offered n r c = omega arith
advance-Covers (some prev) offered n r c = ground arith

module _ (lib : Crates) (service : CaSyncService) (u64 : ReadsU64 service) where
  -- What the file covers, it still covers after a pass.
  pub synchronize_keeps-Covers :
      (w : World) (n : ℕ)
      → Covers (stored w.files.generation) n
      → Covers (stored (synchronize lib service w).0.files.generation) n
  synchronize_keeps-Covers w n c = elim (synchronize_generation lib service w) [
    | inl kept ↦ subst (λ b. Covers (stored b) n) (sym kept) c
    | inr (bundle, (a, line)) ↦
        let bound = offered_bound lib service w.files a.persisted bundle u64 a.offered in
        let was : stored w.files.generation ≡ ok a.persisted.generation =
          read_generation-stored service w.files a.persisted.generation
            (load_state-generation service w.files a.persisted a.offered.loaded) in
        let older = subst (λ r. Covers r n) was c in
        let le = advance-Covers a.persisted.generation bundle.generation n a.not_regressed older in
        subst (λ b. Covers (stored b) n) (sym line)
          (subst (λ r. Covers r n) (sym (stored-decimal bundle.generation bound)) le)
  ]

  unmoved :
      (w v : World) (n : ℕ) (g : Option ℕ)
      → (synchronize lib service w).0 ≡ v
      → stored w.files.generation ≡ ok g
      → n ≡ unwrap_or_zero g
      → Covers (stored v.files.generation) n
  unmoved w v n g h was e =
      let before : Covers (stored w.files.generation) n =
        subst (λ r. Covers r n) (sym was) (subst (Covers (ok g)) (sym e) (Covers-zero_or g)) in
      subst (λ (u : World). Covers (stored u.files.generation) n) h
        (synchronize_keeps-Covers w n before)

  reported-Covers :
      (w v : World) (outcome : SyncOutcome) (g : Option ℕ)
      → synchronize lib service w ≡ (v, ok outcome)
      → stored w.files.generation ≡ ok g
      → Reports lib service v g outcome
      → Covers (stored v.files.generation) (generation_of outcome)
  unfolding generation_of
  reported-Covers w v (not_modified n) g h was r = unmoved w v n g (ap (λ t. t.0) h) was r
  reported-Covers w v (unchanged n) g h was r = unmoved w v n g (ap (λ t. t.0) h) was r
  reported-Covers w v (updated n fingerprint acknowledged) g h was r =
      let done = synchronize_updated lib service n fingerprint acknowledged v w h in
      let bound = offered_bound lib service w.files done.persisted done.bundle u64 done.offered in
      let le : n ≤ done.bundle.generation = ground (arith, done.same_generation) in
      subst (λ b. Covers (stored b) n) (sym done.generation_file)
        (subst (λ r. Covers r n) (sym (stored-decimal done.bundle.generation bound)) le)

  -- A pass that succeeds reports a generation that the file holds, or an older one.
  pub synchronize-Covers :
      (w v : World) (outcome : SyncOutcome)
      → synchronize lib service w ≡ (v, ok outcome)
      → Covers (stored v.files.generation) (generation_of outcome)
  synchronize-Covers w v outcome h =
      let (g, was, r) = synchronize-Reports lib service v outcome w h in
      reported-Covers w v outcome g h was r
