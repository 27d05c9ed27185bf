-- ===== src/Protocol/CaSync/Step.antt =====
-- src/protocol/ca_sync.rs: the steps of a pass that change something outside.
use mayfly_agent.Protocol.CaSync.Service.{
  written, lost, unsynced, last_success_path, at_success, at_pin, fingerprint_path,
  signing_key_path, generation_path, WriteFate, BundleApplyOutcome, CaSyncService, Files, Slot,
  Moment, AckReport, put,
}
use mayfly_agent.Protocol.CaSync.Load.{try_acknowledge, read_optional}
use mayfly_agent.Errors.{io, machine_record_invalid, Error}
use mayfly_agent.Result.{err, is_ok, ok, ok_or, Result}
use mayfly_agent.Text.Decimal.{decimal}
use mayfly_agent.Text.Utf8.{as_bytes}
use mayfly_agent.Bundle.Types.{CaBundle}
use mayfly_agent.Crates.{Crates}
use mayfly_agent.Prelude.{Bool, Option, none, some, List, [], ◌∷◌, ◌++◌}
use mayfly_agent.Text.Chars.{Text, Bytes}

-- The state files, the bodies handed to the helper and the reports sent, each with the last first.
pub record World : Type 0 where
  pub files : Files
  pub delegated : List Text
  pub reports : List AckReport

abbrev pub Step : Type 0 → Type 0
Step A = World → World × Result Error A

abbrev pub next : {A B : Type 0} → World × Result Error A → (A → Step B) → World × Result Error B
next (w, ok a) f = f a w
next (w, err e) f = (w, err e)

infixl 5 ◌>>=◌ ◌>>◌
abbrev pub ◌>>=◌ : {A B : Type 0} → Step A → (A → Step B) → Step B
m >>= f = λ w. next (m w) f

abbrev pub ◌>>◌ : {A B : Type 0} → Step A → Step B → Step B
m >> k = λ w. next (m w) (λ _. k)

abbrev pub lift : {A : Type 0} → Result Error A → Step A
lift r w = (w, r)

-- A read of the state files.
abbrev pub from_files : {A : Type 0} → (Files → Result Error A) → Step A
from_files f w = (w, f w.files)

abbrev pub write_result : WriteFate → Slot → Bytes → World → World × Result Error (Unit {0})
write_result written slot bytes w = (record w { files = put slot bytes w.files }, ok tt)
write_result unsynced slot bytes w = (record w { files = put slot bytes w.files }, err io)
write_result lost slot bytes w = (w, err io)

-- `security::secure_write` of a text and a line feed.
unfoldable pub secure_write : CaSyncService → Slot → Text → Step (Unit {0})
secure_write service slot contents w =
    write_result (service.fate slot) slot (as_bytes (contents ++ 10 ∷ [])) w

unfoldable pub write_timestamp : Crates → CaSyncService → Moment → Slot → Step (Unit {0})
write_timestamp lib service at slot = do
  stamp ← lift (ok_or machine_record_invalid (lib.format_rfc3339 (service.now at)))
  secure_write service slot stamp

-- The write of the pin, if the file is missing.
abbrev pub pin_if_missing : CaSyncService → CaBundle → Option Bytes → Step (Unit {0})
pin_if_missing service bundle (some bytes) = lift (ok tt)
pin_if_missing service bundle none = secure_write service signing_key_path bundle.signing_public_key

abbrev pub pin_unless : CaSyncService → CaBundle → Option Text → Step (Unit {0})
pin_unless service bundle (some pinned) = lift (ok tt)
pin_unless service bundle none = do
  recorded ← from_files (read_optional service at_pin signing_key_path)
  pin_if_missing service bundle recorded

unfoldable pub persist_pin_if_needed : CaSyncService → CaBundle → Step (Unit {0})
persist_pin_if_needed service bundle = pin_unless service bundle service.pinned_signing_key

unfoldable pub persist_after_apply : Crates → CaSyncService → CaBundle → Step (Unit {0})
persist_after_apply lib service bundle = do
  secure_write service generation_path (decimal bundle.generation)
  secure_write service fingerprint_path bundle.fingerprint
  persist_pin_if_needed service bundle
  write_timestamp lib service at_success last_success_path

-- The report is sent; whether it was accepted is the value, and no failure is passed on.
unfoldable pub acknowledge : Crates → CaSyncService → AckReport → Step Bool
acknowledge lib service report w =
    (record w { reports = report ∷ w.reports }, ok (is_ok (try_acknowledge lib service report)))

-- The call of the helper.
unfoldable pub ask_helper : CaSyncService → Text → Step BundleApplyOutcome
ask_helper service contents w =
    (record w { delegated = contents ∷ w.delegated }, service.apply_keys contents)
