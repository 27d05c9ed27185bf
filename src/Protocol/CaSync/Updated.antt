-- ===== src/Protocol/CaSync/Updated.antt =====
-- What a pass that reports `Updated` has done.
use mayfly_agent.Protocol.CaSync.Load.{accept, fetch_bundle, load_state}
use mayfly_agent.Protocol.CaSync.Service.{
  last_sync_path, at_contact, last_success_path, status_not_modified, at_success,
  BundleApplyOutcome, updated, PersistedState, SyncOutcome, Files, fingerprint_path,
  generation_path, put, Slot, WriteFate, applied, rolled_back, written, lost, unsynced,
  CaSyncService,
}
use mayfly_agent.Ssh.TrustedCa.{parse}
use mayfly_agent.Protocol.CaSync.Step.{
  write_timestamp, persist_pin_if_needed, ask_helper, acknowledge, next, secure_write, Step,
  persist_after_apply, write_result, World,
}
use mayfly_agent.Protocol.CaSync.Pass.{
  same_fingerprint, same_generation, apply, process, settle, synchronize, conclude,
}
use mayfly_agent.Protocol.Http.{HttpResponse}
use mayfly_agent.Bundle.Render.{render_trusted_user_ca_keys}
use mayfly_agent.Protocol.CaSync.Keeps.{
  IsOffered, write_timestamp-Keeps, persist_pin_if_needed-Keeps,
}
use mathlib.Core.Path.{subst}
use mayfly_agent.Text.Decimal.{decimal}
use mayfly_agent.Text.Utf8.{as_bytes}
use mayfly_agent.Errors.{Error}
use mayfly_agent.Result.{Result, ok, err}
use mayfly_agent.Bundle.Types.{CaBundle}
use mayfly_agent.Crates.{Crates}
use mayfly_agent.Prelude.{
  ℕ, ◌≡◌, refl, sym, ap, ◌∙◌, inl, inr, Bool, ◌&&◌, some, [], ◌∷◌, ◌++◌, ◌==◌, Bool-cases,
}
use mayfly_agent.Text.Chars.{Text, Bytes}

pub next-ok :
    {A B : Type 0} (x : World × Result Error A) (f : A → Step B) {v : World} {b : B}
    → next x f ≡ (v, ok b)
    → (u : World) × ((a : A) × ((x ≡ (u, ok a)) × (f a u ≡ (v, ok b))))
next-ok (u, ok a) f h = (u, (a, (refl, h)))
next-ok (u, err e) f h = absurd (cc)

write_result-ok :
    (fate : WriteFate) (slot : Slot) (bytes : Bytes) (w v : World)
    → write_result fate slot bytes w ≡ (v, ok tt)
    → v ≡ record w { files = put slot bytes w.files }
write_result-ok written slot bytes w v h = sym (ap (λ (x : World × Result Error (Unit {0})). x.0) h)
write_result-ok unsynced slot bytes w v h = absurd (cc)
write_result-ok lost slot bytes w v h = absurd (cc)

-- The two files that name the bundle.
abbrev Names : Bytes → Bytes → World → Type 0
Names generation fingerprint w =
    (w.files.generation ≡ some generation) × (w.files.fingerprint ≡ some fingerprint)

module _ (lib : Crates) (service : CaSyncService) (bundle : CaBundle) where
  abbrev Recorded : World → Type 0
  Recorded =
      Names (as_bytes (decimal bundle.generation ++ 10 ∷ []))
        (as_bytes (bundle.fingerprint ++ 10 ∷ []))

  after_apply-Recorded :
      (w v : World) → persist_after_apply lib service bundle w ≡ (v, ok tt) → Recorded v
  unfolding persist_after_apply secure_write
  after_apply-Recorded w v h =
      let (x, (_, (first, h1))) =
        next-ok (secure_write service generation_path (decimal bundle.generation) w) _ h in
      let (y, (_, (second, h2))) =
        next-ok (secure_write service fingerprint_path bundle.fingerprint x) _ h1 in
      let (z, (_, (third, h3))) = next-ok (persist_pin_if_needed service bundle y) _ h2 in
      let one = write_result-ok (service.fate generation_path) generation_path _ w x first in
      let two = write_result-ok (service.fate fingerprint_path) fingerprint_path _ x y second in
      let recorded : Recorded y = rw (two, one) (refl, refl) in
      let pinned : Recorded z =
        subst (λ (t : World × Result Error (Unit {0})). Recorded t.0) third
          (persist_pin_if_needed-Keeps Recorded service bundle (λ b t g. g) y recorded) in
      subst (λ (t : World × Result Error (Unit {0})). Recorded t.0) h3
        (write_timestamp-Keeps Recorded lib service at_success last_success_path (λ b t g. g) z
          pinned)

-- The bundle that the report names was accepted in this pass, the helper has applied its file, and
-- the two files name it.
pub record IsUpdated (lib : Crates) (service : CaSyncService) (files : Files) (generation : ℕ)
    (fingerprint : Text) (v : World) : Type 0 where
  pub persisted : PersistedState
  pub bundle : CaBundle
  pub offered : IsOffered lib service files persisted bundle
  pub helper : service.apply_keys (render_trusted_user_ca_keys bundle) ≡ ok applied
  pub same_generation : generation ≡ bundle.generation
  pub same_fingerprint : fingerprint ≡ bundle.fingerprint
  pub generation_file : v.files.generation ≡ some (as_bytes (decimal bundle.generation ++ 10 ∷ []))
  pub fingerprint_file : v.files.fingerprint ≡ some (as_bytes (bundle.fingerprint ++ 10 ∷ []))

module _ (lib : Crates) (service : CaSyncService) (generation : ℕ) (fingerprint : Text)
    (acknowledged : Bool) (v : World) where
  abbrev Done : World × Result Error SyncOutcome → Type 0
  Done x = x ≡ (v, ok (updated generation fingerprint acknowledged))

  conclude_updated :
      (bundle : CaBundle) (outcome : BundleApplyOutcome) (w : World)
      → Done (conclude lib service bundle outcome w)
      → (outcome ≡ applied)
        × (generation ≡ bundle.generation)
        × (fingerprint ≡ bundle.fingerprint)
        × Recorded lib service bundle v
  unfolding conclude acknowledge
  conclude_updated bundle rolled_back w h = absurd (cc)
  conclude_updated bundle applied w h =
      let (x, (_, (first, h1))) = next-ok (persist_after_apply lib service bundle w) _ h in
      let kept = after_apply-Recorded lib service bundle w x first in
      (
        refl,
        cc,
        cc,
        subst (λ (t : World × Result Error SyncOutcome). Recorded lib service bundle t.0) h1 kept,
      )

  settle_updated :
      (persisted : PersistedState) (bundle : CaBundle) (w : World)
      → Done (settle lib service persisted bundle w)
      → (service.apply_keys (render_trusted_user_ca_keys bundle) ≡ ok applied)
        × (generation ≡ bundle.generation)
        × (fingerprint ≡ bundle.fingerprint)
        × Recorded lib service bundle v
  unfolding settle apply ask_helper
  settle_updated persisted bundle w h =
      elim (Bool-cases (
        same_generation persisted.generation bundle.generation
        && same_fingerprint persisted.fingerprint bundle.fingerprint)) [
          | inl e ↦
              let same = rw e at h in
              let (x, (_, (_, h1))) = next-ok (persist_pin_if_needed service bundle w) _ same in
              let (y, (_, (_, h2))) =
                next-ok (write_timestamp lib service at_success last_success_path x) _ h1 in
              absurd (cc)
          | inr e ↦
              let new = rw e at h in
              let (x, (outcome, (asked, h1))) = next-ok (apply service bundle w) _ new in
              let (y, (_, (_, h2))) =
                next-ok (w, parse (render_trusted_user_ca_keys bundle)) _ asked in
              let answered : service.apply_keys (render_trusted_user_ca_keys bundle) ≡ ok outcome =
                ap (λ (t : World × Result Error BundleApplyOutcome). t.1) h2 in
              let (is_applied, g, f, kept) = conclude_updated bundle outcome x h1 in
              (answered ∙ ap ok is_applied, g, f, kept)
        ]

  process_updated :
      (persisted : PersistedState) (response : HttpResponse) (w : World)
      → Done (process lib service persisted response w)
      → (bundle : CaBundle) × (accept lib service persisted response ≡ ok bundle)
        × (service.apply_keys (render_trusted_user_ca_keys bundle) ≡ ok applied)
        × (generation ≡ bundle.generation)
        × (fingerprint ≡ bundle.fingerprint)
        × Recorded lib service bundle v
  unfolding process
  process_updated persisted response w h =
      elim (Bool-cases (response.status == status_not_modified)) [
        | inl e ↦
            let old = rw e at h in
            let (u, (_, (_, h1))) =
              next-ok (write_timestamp lib service at_success last_success_path w) _ old in
            absurd (cc)
        | inr e ↦
            let new = rw e at h in
            let (u, (bundle, (taken, h1))) =
              next-ok (w, accept lib service persisted response) _ new in
            let (helper, g, f, kept) = settle_updated persisted bundle u h1 in
            (bundle, ap (λ (t : World × Result Error CaBundle). t.1) taken, helper, g, f, kept)
      ]

  -- A pass that reports `Updated` has accepted a bundle with this generation and fingerprint,
  -- the helper has applied the file rendered for it, and the state files name it.
  pub synchronize_updated :
      (w : World)
      → synchronize lib service w ≡ (v, ok (updated generation fingerprint acknowledged))
      → IsUpdated lib service w.files generation fingerprint v
  unfolding synchronize
  synchronize_updated w h =
      let (x, (persisted, (loaded, h1))) = next-ok (w, load_state service w.files) _ h in
      let (y, (response, (fetched, h2))) =
        next-ok (x, fetch_bundle lib service persisted.fingerprint) _ h1 in
      let (z, (_, (_, h3))) =
        next-ok (write_timestamp lib service at_contact last_sync_path y) _ h2 in
      let (bundle, taken, helper, g, f, kept) = process_updated persisted response z h3 in
      record {
        persisted = persisted;
        bundle = bundle;
        offered = record {
          response = response;
          loaded = ap (λ (t : World × Result Error PersistedState). t.1) loaded;
          fetched = ap (λ (t : World × Result Error HttpResponse). t.1) fetched;
          accepted = taken;
        };
        helper = helper;
        same_generation = g;
        same_fingerprint = f;
        generation_file = kept.0;
        fingerprint_file = kept.1;
      }
