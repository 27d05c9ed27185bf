-- ===== src/Protocol/CaSync/Generation.antt =====
-- The recorded generation advances only with an accepted bundle that the helper has applied.
use mayfly_agent.Protocol.CaSync.Keeps.{
  settle-Carries, persist_after_apply-Keeps, synchronize-Carries, persist_pin_if_needed-Keeps,
  next-Keeps, Keeps, IsOffered,
}
use mathlib.Core.Path.{subst}
use mayfly_agent.Result.{ok, err, ok_or-eq-ok, ok_or, first_ok, reject_if, both_ok, map_err, Result}
use mayfly_agent.Protocol.CaSync.Service.{
  at_validation, generation_path, BundleApplyOutcome, WriteFate, PersistedState, Files, applied,
  rolled_back, written, lost, unsynced, CaSyncService,
}
use mayfly_agent.Errors.{generation_regressed, invalid_key, invalid_ca_bundle, ca_bundle_rejected}
use mayfly_agent.Protocol.CaSync.Step.{
  ask_helper, write_result, acknowledge, secure_write, persist_after_apply, World,
}
use mayfly_agent.Protocol.CaSync.Load.{expected_signing_key, regressed, accept}
use mayfly_agent.Protocol.CaSync.Pass.{conclude, synchronize}
use mayfly_agent.Bundle.Validate.{from_response}
use mayfly_agent.Protocol.Http.{is_success, HttpResponse}
use mayfly_agent.Bundle.Render.{render_trusted_user_ca_keys}
use mayfly_agent.Bundle.Types.{CaBundleResponse, CaBundle}
use mayfly_agent.Text.Decimal.{decimal}
use mayfly_agent.Text.Utf8.{as_bytes}
use mayfly_agent.Crates.{Crates}
use mayfly_agent.Prelude.{
  ℕ, ◌≤◌, ◌≡◌, refl, ap, ◌∙◌, ◌⊎◌, inl, inr, true, false, not, Option, none, some, [], ◌∷◌, ◌++◌,
  arith,
}
use mayfly_agent.Text.Chars.{Bytes}

-- What `accept` checked of a bundle.
pub record IsChecked (lib : Crates) (service : CaSyncService) (persisted : PersistedState)
    (response : HttpResponse) (bundle : CaBundle) : Type 0 where
  pub raw : CaBundleResponse
  pub status : is_success response.status ≡ true
  pub read : service.bundle_from_json response.body ≡ some raw
  pub validated :
      from_response lib raw (service.now at_validation) (expected_signing_key service persisted)
      ≡ ok bundle
  pub not_regressed : regressed persisted.generation bundle.generation ≡ false

map_err-eq-ok :
    {E F A : Type 0} (f : E → F) (r : Result E A) {a : A} → map_err f r ≡ ok a → r ≡ ok a
map_err-eq-ok f (ok b) h = cc
map_err-eq-ok f (err e) h = cc

pub accept-IsChecked :
    (lib : Crates) (service : CaSyncService) (persisted : PersistedState) (response : HttpResponse)
    (bundle : CaBundle)
    → accept lib service persisted response ≡ ok bundle
    → IsChecked lib service persisted response bundle
unfolding accept
accept-IsChecked lib service persisted response bundle h =
    let (_, h1) = both_ok (reject_if (not (is_success response.status)) ca_bundle_rejected) _ h in
    let (raw, (h2, read)) =
      first_ok (ok_or (invalid_ca_bundle invalid_key) (service.bundle_from_json response.body)) _
        h1 in
    let (b, (h3, valid)) =
      first_ok
        (map_err invalid_ca_bundle (
          from_response lib raw (service.now at_validation)
            (expected_signing_key service persisted)))
        _ h2 in
    let (_, same) =
      both_ok
        (reject_if (regressed persisted.generation b.generation)
          (invalid_ca_bundle generation_regressed))
        _ h3 in
    let e : b ≡ bundle = cc in
    record {
      raw = raw;
      status = ground arith;
      read =
          ok_or-eq-ok (invalid_ca_bundle invalid_key) (service.bundle_from_json response.body) read;
      validated =
          map_err-eq-ok invalid_ca_bundle
            (from_response lib raw (service.now at_validation)
              (expected_signing_key service persisted))
            valid
          ∙ ap ok e;
      not_regressed =
          subst (λ (x : CaBundle). regressed persisted.generation x.generation ≡ false) e
            (ground arith);
    }

-- The generation offered is at least the recorded one, if there is one.
abbrev pub IsNoOlder : Option ℕ → ℕ → Type 0
IsNoOlder none offered = Unit
IsNoOlder (some recorded) offered = recorded ≤ offered

regressed-IsNoOlder :
    (recorded : Option ℕ) (offered : ℕ)
    → regressed recorded offered ≡ false
    → IsNoOlder recorded offered
regressed-IsNoOlder none offered h = tt
regressed-IsNoOlder (some recorded) offered h = ground arith

-- The bundle passed every check of the pass, and the helper applied the file rendered for it.
pub record IsApplied (lib : Crates) (service : CaSyncService) (files : Files) (bundle : CaBundle)
    : Type 0 where
  pub persisted : PersistedState
  pub offered : IsOffered lib service files persisted bundle
  pub not_regressed : regressed persisted.generation bundle.generation ≡ false
  pub not_older : IsNoOlder persisted.generation bundle.generation
  pub helper : service.apply_keys (render_trusted_user_ca_keys bundle) ≡ ok applied

abbrev pub generation_line : CaBundle → Bytes
generation_line bundle = as_bytes (decimal bundle.generation ++ 10 ∷ [])

module _ (lib : Crates) (service : CaSyncService) (start : World) where
  abbrev pub KeptOrAdvanced : World → Type 0
  KeptOrAdvanced w =
      (w.files.generation ≡ start.files.generation)
      ⊎ ((bundle : CaBundle) × (IsApplied lib service start.files bundle
            × (w.files.generation ≡ some (generation_line bundle))))

  write-Advanced :
      (bundle : CaBundle) (fate : WriteFate)
      → IsApplied lib service start.files bundle
      → Keeps KeptOrAdvanced (write_result fate generation_path (generation_line bundle))
  write-Advanced bundle written a w h = inr (bundle, (a, refl))
  write-Advanced bundle unsynced a w h = inr (bundle, (a, refl))
  write-Advanced bundle lost a w h = h

  conclude-Advanced :
      (persisted : PersistedState) (bundle : CaBundle) (outcome : BundleApplyOutcome)
      → IsOffered lib service start.files persisted bundle
      → service.apply_keys (render_trusted_user_ca_keys bundle) ≡ ok outcome
      → Keeps KeptOrAdvanced (conclude lib service bundle outcome)
  unfolding conclude acknowledge secure_write
  conclude-Advanced persisted bundle applied o e w h =
      let checked = accept-IsChecked lib service persisted o.response bundle o.accepted in
      next-Keeps KeptOrAdvanced _ (persist_after_apply lib service bundle w)
        (persist_after_apply-Keeps KeptOrAdvanced lib service bundle
          (write-Advanced bundle (service.fate generation_path) (record {
            persisted = persisted;
            offered = o;
            not_regressed = checked.not_regressed;
            not_older =
                regressed-IsNoOlder persisted.generation bundle.generation checked.not_regressed;
            helper = e;
          }))
          (λ b v g. g) (persist_pin_if_needed-Keeps KeptOrAdvanced service bundle (λ b v g. g))
          (λ b v g. g) w h)
        (λ a v g. g)
  conclude-Advanced persisted bundle rolled_back o e w h = h

  -- After a pass the generation file is as it was, or it holds the generation of a bundle that
  -- was fetched, authenticated and validated in this pass, that is not older than the recorded
  -- generation, and whose rendered file the helper has applied.
  pub synchronize_generation : KeptOrAdvanced (synchronize lib service start).0
  unfolding ask_helper
  synchronize_generation =
      synchronize-Carries lib service KeptOrAdvanced KeptOrAdvanced (λ v g. g) start (λ b v g. g)
        (λ b v g. g)
        (λ persisted bundle o.
          settle-Carries lib service KeptOrAdvanced KeptOrAdvanced (λ v g. g) persisted bundle
            (persist_pin_if_needed-Keeps KeptOrAdvanced service bundle (λ b v g. g)) (λ b v g. g)
            (λ p v g. g) (λ outcome e. conclude-Advanced persisted bundle outcome o e))
        (inl refl)
