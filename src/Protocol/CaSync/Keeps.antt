-- ===== src/Protocol/CaSync/Keeps.antt =====
-- What the steps of a pass leave alone, and how a fact is carried through a whole pass.
use mayfly_agent.Protocol.CaSync.Pass.{
  same_fingerprint, same_generation, conclude, apply, settle, process, synchronize,
}
use mayfly_agent.Protocol.CaSync.Service.{
  BundleApplyOutcome, fingerprint_path, generation_path, at_success, at_contact,
  status_not_modified, at_pin, last_success_path, PersistedState, last_sync_path, signing_key_path,
  Files, Moment, WriteFate, written, lost, unsynced, CaSyncService, Slot, put,
}
use mayfly_agent.Bundle.Render.{render_trusted_user_ca_keys}
use mayfly_agent.Ssh.TrustedCa.{parse}
use mayfly_agent.Text.Decimal.{decimal}
use mayfly_agent.Result.{is_ok, ok, err, Result-cases, ok_or, Result}
use mayfly_agent.Protocol.CaSync.Step.{
  ask_helper, persist_after_apply, pin_unless, pin_if_missing, lift, persist_pin_if_needed,
  write_timestamp, Step, World, next, secure_write, write_result,
}
use mayfly_agent.Protocol.CaSync.Load.{fetch_bundle, accept, read_optional, load_state}
use mayfly_agent.Errors.{machine_record_invalid, Error}
use mayfly_agent.Protocol.Http.{HttpResponse}
use mayfly_agent.Bundle.Types.{CaBundle}
use mayfly_agent.Crates.{Crates}
use mayfly_agent.Text.Utf8.{as_bytes}
use mayfly_agent.Prelude.{
  ◌≡◌, refl, inl, inr, true, ◌&&◌, Option, none, some, [], ◌∷◌, ◌++◌, ◌==◌, Bool-cases,
}
use mayfly_agent.Text.Chars.{Text, Bytes}

abbrev pub Keeps : {A : Type 0} → (World → Type 0) → Step A → Type 0
Keeps P m = (w : World) → P w → P (m w).0

pub next-Keeps :
    {A B : Type 0} (P : World → Type 0) (f : A → Step B) (x : World × Result Error A)
    → P x.0
    → ((a : A) → Keeps P (f a))
    → P (next x f).0
next-Keeps P f (w, ok a) h k = k a w h
next-Keeps P f (w, err e) h k = h

-- A write of this file leaves the fact alone.
abbrev pub Ignores : (World → Type 0) → Slot → Type 0
Ignores P slot = (bytes : Bytes) (w : World) → P w → P (record w { files = put slot bytes w.files })

write_result-Keeps :
    (P : World → Type 0) (fate : WriteFate) (slot : Slot) (bytes : Bytes)
    → Ignores P slot
    → Keeps P (write_result fate slot bytes)
write_result-Keeps P written slot bytes i w h = i bytes w h
write_result-Keeps P unsynced slot bytes i w h = i bytes w h
write_result-Keeps P lost slot bytes i w h = h

pub secure_write-Keeps :
    (P : World → Type 0) (service : CaSyncService) (slot : Slot) (contents : Text)
    → Ignores P slot
    → Keeps P (secure_write service slot contents)
unfolding secure_write
secure_write-Keeps P service slot contents i w h =
    write_result-Keeps P (service.fate slot) slot (as_bytes (contents ++ 10 ∷ [])) i w h

pub write_timestamp-Keeps :
    (P : World → Type 0) (lib : Crates) (service : CaSyncService) (at : Moment) (slot : Slot)
    → Ignores P slot
    → Keeps P (write_timestamp lib service at slot)
unfolding write_timestamp
write_timestamp-Keeps P lib service at slot i w h =
    next-Keeps P (secure_write service slot)
      (lift (ok_or machine_record_invalid (lib.format_rfc3339 (service.now at))) w) h
      (λ stamp. secure_write-Keeps P service slot stamp i)

pin_if_missing-Keeps :
    (P : World → Type 0) (service : CaSyncService) (bundle : CaBundle) (recorded : Option Bytes)
    → Ignores P signing_key_path
    → Keeps P (pin_if_missing service bundle recorded)
pin_if_missing-Keeps P service bundle none i w h =
    secure_write-Keeps P service signing_key_path bundle.signing_public_key i w h
pin_if_missing-Keeps P service bundle (some bytes) i w h = h

pin_unless-Keeps :
    (P : World → Type 0) (service : CaSyncService) (bundle : CaBundle) (pinned : Option Text)
    → Ignores P signing_key_path
    → Keeps P (pin_unless service bundle pinned)
pin_unless-Keeps P service bundle (some pinned) i w h = h
pin_unless-Keeps P service bundle none i w h =
    next-Keeps P (pin_if_missing service bundle)
      (w, read_optional service at_pin signing_key_path w.files) h
      (λ recorded. pin_if_missing-Keeps P service bundle recorded i)

pub persist_pin_if_needed-Keeps :
    (P : World → Type 0) (service : CaSyncService) (bundle : CaBundle)
    → Ignores P signing_key_path
    → Keeps P (persist_pin_if_needed service bundle)
unfolding persist_pin_if_needed
persist_pin_if_needed-Keeps P service bundle i =
    pin_unless-Keeps P service bundle service.pinned_signing_key i

-- The bundle was accepted in this pass, against the state that stood in the files.
pub record IsOffered (lib : Crates) (service : CaSyncService) (files : Files)
    (persisted : PersistedState) (bundle : CaBundle) : Type 0 where
  pub response : HttpResponse
  pub loaded : load_state service files ≡ ok persisted
  pub fetched : fetch_bundle lib service persisted.fingerprint ≡ ok response
  pub accepted : accept lib service persisted response ≡ ok bundle

pub persist_after_apply-Keeps :
    (P : World → Type 0) (lib : Crates) (service : CaSyncService) (bundle : CaBundle)
    → Keeps P (secure_write service generation_path (decimal bundle.generation))
    → Ignores P fingerprint_path
    → Keeps P (persist_pin_if_needed service bundle)
    → Ignores P last_success_path
    → Keeps P (persist_after_apply lib service bundle)
unfolding persist_after_apply
persist_after_apply-Keeps P lib service bundle g f p l w h =
    next-Keeps P _ (secure_write service generation_path (decimal bundle.generation) w) (g w h)
      (λ x v hv.
        next-Keeps P _ (secure_write service fingerprint_path bundle.fingerprint v)
          (secure_write-Keeps P service fingerprint_path bundle.fingerprint f v hv)
          (λ y u hu.
            next-Keeps P _ (persist_pin_if_needed service bundle u) (p u hu)
              (λ z. write_timestamp-Keeps P lib service at_success last_success_path l)))

-- From a fact `P` before a step to a fact `Q` after it.
abbrev pub Carries : {A : Type 0} → (World → Type 0) → (World → Type 0) → Step A → Type 0
Carries P Q m = (w : World) → P w → Q (m w).0

module _ (lib : Crates) (service : CaSyncService) (P Q : World → Type 0)
    (weaken : (w : World) → P w → Q w) where
  pub settle-Carries :
      (persisted : PersistedState) (bundle : CaBundle)
      → Keeps P (persist_pin_if_needed service bundle)
      → Ignores P last_success_path
      → (is_ok (parse (render_trusted_user_ca_keys bundle)) ≡ true
          → Carries P Q (ask_helper service (render_trusted_user_ca_keys bundle)))
      → ((outcome : BundleApplyOutcome)
          → service.apply_keys (render_trusted_user_ca_keys bundle) ≡ ok outcome
          → Keeps Q (conclude lib service bundle outcome))
      → Carries P Q (settle lib service persisted bundle)
  unfolding settle apply ask_helper
  settle-Carries persisted bundle p i asked k w h =
      elim (Bool-cases (
        same_generation persisted.generation bundle.generation
        && same_fingerprint persisted.fingerprint bundle.fingerprint)) [
          | inl e ↦ rw e (
              weaken _ (
                next-Keeps P _ (persist_pin_if_needed service bundle w) (p w h) (λ a v g.
                  next-Keeps P _ (write_timestamp lib service at_success last_success_path v)
                    (write_timestamp-Keeps P lib service at_success last_success_path i v g)
                    (λ c u f. f))))
          | inr e ↦ rw e (elim (Result-cases (parse (render_trusted_user_ca_keys bundle))) [
            | inr (refused, r) ↦ rw r (weaken w h)
            | inl (keys, r) ↦
                let after = asked (rw r refl) w h in
                rw r
                  (elim (Result-cases (service.apply_keys (render_trusted_user_ca_keys bundle))) [
                    | inr (failed, q) ↦ rw q after
                    | inl (outcome, q) ↦ rw q (k outcome q _ after)
                  ])
          ])
        ]

  process-Carries :
      (persisted : PersistedState) (response : HttpResponse)
      → Ignores P last_success_path
      → ((bundle : CaBundle)
          → accept lib service persisted response ≡ ok bundle
          → Carries P Q (settle lib service persisted bundle))
      → Carries P Q (process lib service persisted response)
  unfolding process
  process-Carries persisted response i k w h =
      elim (Bool-cases (response.status == status_not_modified)) [
        | inl e ↦ rw e (
            weaken _ (
              next-Keeps P _ (write_timestamp lib service at_success last_success_path w)
                (write_timestamp-Keeps P lib service at_success last_success_path i w h)
                (λ a v g. g)))
        | inr e ↦ rw e (elim (Result-cases (accept lib service persisted response)) [
          | inl (bundle, q) ↦ rw q (k bundle q w h)
          | inr (refused, q) ↦ rw q (weaken w h)
        ])
      ]

  -- A fact that the time stamps leave alone is carried to what `settle` of an offered bundle
  -- makes of it.
  pub synchronize-Carries :
      (w : World)
      → Ignores P last_sync_path
      → Ignores P last_success_path
      → ((persisted : PersistedState) (bundle : CaBundle)
          → IsOffered lib service w.files persisted bundle
          → Carries P Q (settle lib service persisted bundle))
      → P w
      → Q (synchronize lib service w).0
  unfolding synchronize
  synchronize-Carries w i j k h = elim (Result-cases (load_state service w.files)) [
    | inr (refused, q) ↦ rw q (weaken w h)
    | inl (persisted, q) ↦
        rw q (elim (Result-cases (fetch_bundle lib service persisted.fingerprint)) [
          | inr (refused, r) ↦ rw r (weaken w h)
          | inl (response, r) ↦ rw r (
              next-Carries (process lib service persisted response)
                (write_timestamp lib service at_contact last_sync_path w)
                (write_timestamp-Keeps P lib service at_contact last_sync_path i w h)
                (process-Carries persisted response j (λ bundle s.
                  k persisted bundle
                    (record { response = response; loaded = q; fetched = r; accepted = s }))))
        ])
  ]
    where
      next-Carries :
          {A B : Type 0} (m : Step B) (x : World × Result Error A)
          → P x.0
          → Carries P Q m
          → Q (next x (λ _. m)).0
      next-Carries m (v, ok a) hv c = c v hv
      next-Carries m (v, err e) hv c = weaken v hv
