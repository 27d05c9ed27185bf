-- ===== src/Service/Daemon/Bookkeeping.antt =====
-- src/service/daemon.rs: `record_heartbeat`, `record_sync`, `persist_status` and `run_poll_loop`.
use mayfly_agent.Result.{is_ok, err, ok, Result}
use mayfly_agent.Protocol.CaSync.Reported.{generation_of}
use mayfly_agent.Identity.Keypair.{MachineKeypair}
use mayfly_agent.Protocol.Signing.{unix_timestamp}
use mayfly_agent.Security.Write.{Run, History}
use mayfly_agent.Service.RuntimeState.{RuntimeStatus, StatusFormat, save_status}
use mayfly_agent.Identity.Machine.{MachineIdentity}
use mayfly_agent.Protocol.Heartbeat.{send_heartbeat, HeartbeatClient, HeartbeatRequest}
use mayfly_agent.Protocol.CaSync.Pass.{synchronize}
use mayfly_agent.Text.Chars.{codes, Text}
use mayfly_agent.Service.Shutdown.{sleep_chunks, default_sleep_step, clamp_step}
use mayfly_agent.Service.Polling.{run_polling, Polling, PollState}
use mayfly_agent.Platform.{HostFacts}
use mayfly_agent.Ipc.Applier.{HelperBundleApplier, apply_with_token}
use mayfly_agent.Crates.{nanos_per_sec, Crates, Instant}
use mayfly_agent.Errors.{Error}
use mayfly_agent.Protocol.CaSync.Service.{
  CaSyncService, SyncOutcome, not_modified, unchanged, updated,
}
use mayfly_agent.Protocol.CaSync.Step.{World}
use mayfly_agent.Config.{Config}
use mayfly_agent.Service.Shutdown.Chunks.{total}
use mayfly_agent.Float.{Floats}
use mayfly_agent.Prelude.{ℕ, ◌+◌, ◌-◌, ◌*◌, ◌/◌, Bool, not, Option, none, some, List, ◌∷◌}

-- What the daemon meets outside, by the number of the call: transports and serde, the helper, how a
-- write of the status goes and how long the call takes; and from when on shutdown is requested.
pub record Surroundings : Type 0 where
  pub lib : Crates
  pub heartbeat : ℕ → HeartbeatClient
  pub sync : ℕ → CaSyncService
  pub applier : ℕ → HelperBundleApplier
  pub status_format : StatusFormat
  pub status_run : ℕ → Run
  pub took : ℕ → ℕ
  pub shutdown : Instant → Bool

-- What `run` has set up when the loop starts.
pub record Prepared (fl : Floats) : Type 0 where
  pub config : Config fl
  pub host : HostFacts
  pub identity : MachineIdentity
  pub hb_keypair : MachineKeypair
  pub sync_keypair : MachineKeypair
  pub version : Text
  pub startup : Instant

-- The clock, the number of calls so far, the state files, the other files, the status, and the
-- heartbeats sent, the last one first.
pub record DaemonState : Type 0 where
  pub now : Instant
  pub calls : ℕ
  pub world : World
  pub history : History
  pub status : RuntimeStatus
  pub sent : List HeartbeatRequest

module _ (fl : Floats) (out : Surroundings) (p : Prepared fl) where
  abbrev pub heartbeat_client : DaemonState → HeartbeatClient
  heartbeat_client s = record (out.heartbeat s.calls) {
    now = s.now;
    machine_id = p.identity.machine_id;
    keypair = p.hb_keypair;
    server_url = p.identity.server_url;
  }

  abbrev pub sync_service : ℕ → CaSyncService
  sync_service n = record (out.sync n) {
    apply_keys = apply_with_token (out.applier n);
    keypair = p.sync_keypair;
    machine_id = p.identity.machine_id;
    server_url = p.identity.server_url;
    pinned_signing_key = p.config.bundle_signing_public_key;
  }

  -- A failed write is logged and dropped.
  unfoldable pub persist_status : DaemonState → DaemonState
  persist_status s = record s {
    history =
        (save_status fl out.status_format (out.status_run s.calls) s.status p.config s.history).0;
  }

  -- The call is over.
  abbrev pub tick : DaemonState → DaemonState
  tick s = record s { now = s.now + out.took s.calls; calls = s.calls + 1 }

  abbrev pub heartbeat_of : DaemonState → HeartbeatRequest
  heartbeat_of s = record {
    agent_version = p.version;
    hostname = p.host.hostname;
    kernel_os = p.host.os;
    kernel = p.host.kernel;
    ip = p.host.ip;
    current_generation = s.status.current_generation;
    uptime_seconds = (s.now - p.startup) / nanos_per_sec;
  }

  abbrev pub discard : {A : Type 0} → Result Error A → Result Error (Unit {0})
  discard (ok a) = ok tt
  discard (err e) = err e

  unfoldable pub record_heartbeat : DaemonState → DaemonState × Result Error (Unit {0})
  record_heartbeat s =
      let request = heartbeat_of s in
      let result = send_heartbeat out.lib (heartbeat_client s) request in
      let status = record s.status {
        last_heartbeat_unix = some (unix_timestamp s.now);
        last_heartbeat_ok = some (is_ok result);
      } in
      (
        tick (persist_status (record s { status = status; sent = request ∷ s.sent })),
        discard result,
      )

  abbrev pub outcome_label : SyncOutcome → Text
  outcome_label (not_modified generation) = codes "not_modified"
  outcome_label (unchanged generation) = codes "unchanged"
  outcome_label (updated generation fingerprint acknowledged) = codes "updated"

  -- The status after a pass that ended at `now`.
  abbrev pub after_sync : Instant → Result Error SyncOutcome → RuntimeStatus → RuntimeStatus
  after_sync now (ok outcome) status = record status {
    last_sync_unix = some (unix_timestamp now);
    last_sync_outcome = some (outcome_label outcome);
    current_generation = generation_of outcome;
  }
  after_sync now (err e) status = record status {
    last_sync_unix = some (unix_timestamp now);
    last_sync_outcome = some (codes "error");
  }

  unfoldable pub record_sync : DaemonState → DaemonState × Result Error (Unit {0})
  record_sync s =
      let passed = synchronize out.lib (sync_service s.calls) s.world in
      let status = after_sync (s.now + out.took s.calls) passed.1 s.status in
      (tick (persist_status (record s { world = passed.0; status = status })), discard passed.1)

  abbrev pub slept_of : Option (List ℕ) → ℕ
  slept_of none = 0
  slept_of (some chunks) = total chunks

  -- The interruptible sleep: its check of the flag number `i` comes after `i` whole steps.
  unfoldable pub sleep_for : ℕ → DaemonState → DaemonState
  sleep_for d s =
      let step = clamp_step default_sleep_step in
      let chunks = sleep_chunks (d + 1) (λ i. out.shutdown (s.now + i * step)) step 0 d in
      record s { now = s.now + slept_of chunks }

  abbrev pub callbacks : Polling DaemonState
  callbacks = record {
    now = λ s. s.now;
    sleep = sleep_for;
    on_heartbeat = record_heartbeat;
    on_bundle_sync = record_sync;
    should_continue = λ cycle s. not (out.shutdown s.now);
  }

  unfoldable pub run_poll_loop : ℕ → PollState fl DaemonState → Option (PollState fl DaemonState)
  run_poll_loop fuel st = run_polling fl callbacks fuel 0 st
