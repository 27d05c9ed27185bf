-- ===== src/Protocol/CaSync/Pass.antt =====
-- src/protocol/ca_sync.rs: `synchronize` and `apply`.
use mayfly_agent.Protocol.CaSync.Service.{
  applied, rolled_back, unchanged, last_sync_path, not_modified, updated, last_success_path,
  at_contact, at_success, status_not_modified, ack_rollback_reason, ack_status_applied, SyncOutcome,
  BundleApplyOutcome, PersistedState, ack_status_rollback, CaSyncService, AckReport,
}
use mayfly_agent.Protocol.CaSync.Load.{accept, fetch_bundle, load_state}
use mayfly_agent.Errors.{ca_reload_failed}
use mayfly_agent.Result.{err, ok}
use mayfly_agent.Bundle.Validate.{unwrap_or_zero}
use mayfly_agent.Protocol.CaSync.Step.{
  ask_helper, acknowledge, persist_after_apply, persist_pin_if_needed, Step, lift, from_files,
  write_timestamp, ◌>>=◌, ◌>>◌,
}
use mayfly_agent.Bundle.Render.{render_trusted_user_ca_keys}
use mayfly_agent.Protocol.Http.{HttpResponse}
use mayfly_agent.Ssh.TrustedCa.{parse}
use mayfly_agent.Bundle.Types.{CaBundle}
use mayfly_agent.Crates.{Crates}
use mayfly_agent.Prelude.{ℕ, Bool, false, ◌&&◌, Option, none, some, ◌==◌, if◌then◌else◌}
use mayfly_agent.Text.Chars.{Text, text_eq}

-- The rendered file, which must parse, is handed to the helper.
unfoldable pub apply : CaSyncService → CaBundle → Step BundleApplyOutcome
apply service bundle = do
  lift (parse (render_trusted_user_ca_keys bundle))
  ask_helper service (render_trusted_user_ca_keys bundle)

abbrev pub report_applied : CaBundle → AckReport
report_applied bundle = record {
  generation = bundle.generation;
  fingerprint = bundle.fingerprint;
  status = ack_status_applied;
  reason = none;
}

abbrev pub report_rollback : CaBundle → AckReport
report_rollback bundle = record {
  generation = bundle.generation;
  fingerprint = bundle.fingerprint;
  status = ack_status_rollback;
  reason = some ack_rollback_reason;
}

-- The two arms of the `match` on what `apply` returned.
unfoldable pub conclude : Crates → CaSyncService → CaBundle → BundleApplyOutcome → Step SyncOutcome
conclude lib service bundle applied = do
  persist_after_apply lib service bundle
  acknowledged ← acknowledge lib service (report_applied bundle)
  lift (ok (updated bundle.generation bundle.fingerprint acknowledged))
conclude lib service bundle rolled_back = do
  acknowledge lib service (report_rollback bundle)
  lift (err ca_reload_failed)

abbrev pub same_generation : Option ℕ → ℕ → Bool
same_generation none generation = false
same_generation (some prev) generation = prev == generation

abbrev pub same_fingerprint : Option Text → Text → Bool
same_fingerprint none fingerprint = false
same_fingerprint (some prev) fingerprint = text_eq prev fingerprint

unfoldable pub settle : Crates → CaSyncService → PersistedState → CaBundle → Step SyncOutcome
settle lib service persisted bundle =
    if same_generation persisted.generation bundle.generation
      && same_fingerprint persisted.fingerprint bundle.fingerprint
    then (do
      persist_pin_if_needed service bundle
      write_timestamp lib service at_success last_success_path
      lift (ok (unchanged bundle.generation)))
    else (do outcome ← apply service bundle; conclude lib service bundle outcome)

-- What follows the response.
unfoldable pub process : Crates → CaSyncService → PersistedState → HttpResponse → Step SyncOutcome
process lib service persisted response =
    if response.status == status_not_modified
    then (do
      write_timestamp lib service at_success last_success_path
      lift (ok (not_modified (unwrap_or_zero persisted.generation))))
    else (do
      bundle ← lift (accept lib service persisted response)
      settle lib service persisted bundle)

unfoldable pub synchronize : Crates → CaSyncService → Step SyncOutcome
synchronize lib service = do
  persisted ← from_files (load_state service)
  response ← lift (fetch_bundle lib service persisted.fingerprint)
  write_timestamp lib service at_contact last_sync_path
  process lib service persisted response
