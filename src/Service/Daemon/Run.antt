-- ===== src/Service/Daemon/Run.antt =====
-- src/service/daemon.rs: `Daemon::run`, from the preparation of the state directory to the status of
-- the clean stop.
pub mod Recovered
pub mod Ends
pub mod Final
pub mod Untouched
pub mod Returns
use mayfly_agent.Security.Store.{
  is_regular, followed_link, and_then, Os, pure, reading, Store, ◌>>=◌, ◌>>◌,
}
use mayfly_agent.Security.{Entry, Disk}
use mayfly_agent.Service.Daemon.Bookkeeping.{
  Surroundings, record_heartbeat, record_sync, run_poll_loop, Prepared, DaemonState,
}
use mayfly_agent.Crates.{Instant}
use mayfly_agent.Service.Scheduler.{RandomSource, new_interval, new_scheduler}
use mayfly_agent.Service.RuntimeState.{
  load_status, current_generation, read_optional_file, save_status, ensure_state_dir, RuntimeStatus,
}
use mayfly_agent.Service.Daemon.Enrolling.{EnrollSurroundings, ensure_enrolled}
use mayfly_agent.Platform.{host_facts, Host}
use mayfly_agent.Protocol.Signing.{unix_timestamp}
use mayfly_agent.Text.Chars.{Text, Bytes}
use mayfly_agent.Identity.Enrollment.Service.{read_keypair}
use mayfly_agent.Identity.Keypair.{MachineKeypair}
use mayfly_agent.Identity.Enrollment.Requests.{new_service}
use mayfly_agent.Identity.Machine.{MachineIdentity}
use mayfly_agent.Service.State.{AppState}
use mayfly_agent.Service.Polling.{PollState}
use mayfly_agent.Float.{Floats}
use mayfly_agent.Errors.{Error}
use mayfly_agent.Prelude.{
  ℕ, zero, suc, ◌+◌, ◌-◌, ◌*◌, ◌/◌, ◌%◌, ◌^◌, ◌≤◌, ◌<◌, String, ◌≡◌, refl, sym, ap, ◌∙◌, ◌≢◌, ◌↔◌,
  ◌⊎◌, inl, inr, Bool, true, false, not, ◌&&◌, ◌||◌, Option, none, some, List, [], ◌∷◌, ◌++◌, map,
  arith, ltb, leb, ◌==◌, if◌then◌else◌, ltb→lt, lt→ltb, ==_iff, ==_self, Bool-cases, Option-cases,
  &&-eq-true, &&-true, length, is_empty, head?, take, drop, any, all, length-append, all-append,
  any-append, length-map, All,
}
use mayfly_agent.Result.{err, ok, Result}
use mayfly_agent.Security.Write.{History}
use mayfly_agent.Protocol.CaSync.Service.{Files}
use mayfly_agent.Config.{
  generation_path, last_sync_path, last_success_path, bundle_fingerprint_path,
  bundle_signing_key_path, Config,
}
use mayfly_agent.Security.Write as Write

-- What a run meets outside until the poll loop: the host, whether the state directory can be made
-- and given its mode, the signal handlers, enrollment, whether shutdown was requested in it, the
-- clock after it, the two transports, the first write of the status and the last one.
pub record Startup (fl : Floats) : Type 0 where
  pub state : AppState fl
  pub version : Text
  pub host : Host
  pub created : Bool
  pub permitted : Bool
  pub signals : Result Error (Unit {0})
  pub enroll : EnrollSurroundings
  pub retry_draws : RandomSource
  pub requested : Bool
  pub now : Instant
  pub hb_transport : Result Error (Unit {0})
  pub ca_transport : Result Error (Unit {0})
  pub draws : RandomSource
  pub first_run : Write.Run
  pub last_run : Write.Run
  pub out : Surroundings

-- What a run leaves: the files that are not the state files, the daemon if it got as far as the
-- poll loop, and the result.
pub record Ended : Type 0 where
  pub history : History
  pub daemon : Option DaemonState
  pub result : Result Error (Unit {0})

-- The content of a file, whether or not it can be read.
abbrev pub content_of : Option Entry → Option Bytes
content_of none = none
content_of (some e) = if is_regular e.kind then some e.content else none

abbrev pub content_at : Os → Text → Disk → Option Bytes
content_at os path disk = content_of (followed_link os path (disk.lookup path))

module _ (fl : Floats) where
  -- The state files of the configuration, as they stand on disk. Whether a pass can read one is
  -- `can_read` of its surroundings.
  abbrev pub files_of : Os → Config fl → Disk → Files
  files_of os config disk = record {
    generation = content_at os (generation_path fl config) disk;
    fingerprint = content_at os (bundle_fingerprint_path fl config) disk;
    signing_key = content_at os (bundle_signing_key_path fl config) disk;
    last_sync = content_at os (last_sync_path fl config) disk;
    last_success = content_at os (last_success_path fl config) disk;
  }

  abbrev pub stopped : History → Result Error (Unit {0}) → Option Ended
  stopped h result = some (record { history = h; daemon = none; result = result })

  module _ (start : Startup fl) where
    abbrev pub prepared : MachineIdentity → MachineKeypair → MachineKeypair → Prepared fl
    prepared identity hb_keypair sync_keypair = record {
      config = start.state.config;
      host = host_facts start.host;
      identity = identity;
      hb_keypair = hb_keypair;
      sync_keypair = sync_keypair;
      version = start.version;
      startup = start.state.startup_time;
    }

    -- Both keys, the generation, the previous status, which is logged only, and the transports.
    unfoldable pub recover : MachineIdentity → Store (Prepared fl × ℕ)
    recover identity = do
      hb_keypair ←
          read_keypair (start.enroll.outside 0) (new_service start.state.config.identity_dir)
      sync_keypair ←
          read_keypair (start.enroll.outside 0) (new_service start.state.config.identity_dir)
      generation ← reading (current_generation fl (start.enroll.outside 0).os start.state.config)
      reading
          (load_status fl start.out.status_format (start.enroll.outside 0).os start.state.config)
      pure start.hb_transport
      pure start.ca_transport
      pure (ok (prepared identity hb_keypair sync_keypair, generation))

    abbrev pub first_status : Prepared fl → ℕ → RuntimeStatus
    first_status p generation = record {
      agent_version = p.version;
      machine_id = p.identity.machine_id;
      started_at_unix = unix_timestamp p.startup;
      last_heartbeat_unix = none;
      last_heartbeat_ok = none;
      last_sync_unix = none;
      last_sync_outcome = none;
      current_generation = generation;
      clean_shutdown = false;
    }

    abbrev pub first_state : Prepared fl → ℕ → History → DaemonState
    first_state p generation h = record {
      now = start.now;
      calls = 0;
      world = record {
        files = files_of (start.enroll.outside 0).os start.state.config h.present;
        delegated = [];
        reports = [];
      };
      history = h;
      status = first_status p generation;
      sent = [];
    }

    abbrev pub poll_start : Prepared fl → DaemonState → PollState fl DaemonState
    poll_start p s =
        let ratio = start.state.config.poll_jitter_ratio in
        let (scheduler, rng) =
          new_scheduler fl start.now (new_interval fl p.identity.heartbeat_interval ratio)
            (new_interval fl p.identity.sync_interval ratio) start.draws in
        record { scheduler = scheduler; rng = rng; world = s }

    -- The heartbeat and the pass before the loop.
    abbrev pub first_calls : Prepared fl → DaemonState → DaemonState
    first_calls p s = (record_sync fl start.out p (record_heartbeat fl start.out p s).0).0

    abbrev pub clean_status : DaemonState → RuntimeStatus
    clean_status s = record s.status { clean_shutdown = true }

    -- The status of a clean stop.
    unfoldable pub stop_cleanly : Option (PollState fl DaemonState) → Option Ended
    stop_cleanly none = none
    stop_cleanly (some end) =
        let saved =
          save_status fl start.out.status_format start.last_run (clean_status end.world)
            start.state.config end.world.history in
        some (record {
          history = saved.0;
          daemon = some (record end.world { history = saved.0; status = clean_status end.world });
          result = saved.1;
        })

    abbrev pub poll : ℕ → Prepared fl → DaemonState → Result Error (Unit {0}) → Option Ended
    poll fuel p s (err e) = stopped s.history (err e)
    poll fuel p s (ok u) =
        stop_cleanly (run_poll_loop fl start.out p fuel (poll_start p (first_calls p s)))

    -- The first status is on disk before anything is sent.
    unfoldable pub work : ℕ → History × Result Error (Prepared fl × ℕ) → Option Ended
    work fuel (h, err e) = stopped h (err e)
    work fuel (h, ok (p, generation)) =
        let saved =
          save_status fl start.out.status_format start.first_run (first_status p generation)
            start.state.config h in
        poll fuel p (record (first_state p generation h) { history = saved.0 }) saved.1

    unfoldable pub after_enrollment :
        ℕ → Option (History × Result Error MachineIdentity) → Option Ended
    after_enrollment fuel none = none
    after_enrollment fuel (some (h, err e)) = stopped h (err e)
    after_enrollment fuel (some (h, ok identity)) =
        if start.requested then stopped h (ok tt) else work fuel (recover identity h)

    abbrev pub enroll_and_work : ℕ → ℕ → History → Result Error (Unit {0}) → Option Ended
    enroll_and_work retries fuel h (err e) = stopped h (err e)
    enroll_and_work retries fuel h (ok u) = after_enrollment fuel (
        ensure_enrolled fl start.enroll start.state.config
          (new_service start.state.config.identity_dir) (host_facts start.host).hostname retries
          start.retry_draws h)

    -- The first fuel is for the attempts to enroll, the second for the poll loop.
    unfoldable pub run : ℕ → ℕ → History → Option Ended
    run retries fuel h =
        let made =
          and_then
            (ensure_state_dir (start.enroll.outside 0).os start.created start.permitted
              start.state.config.state_dir h)
            (λ _. pure start.signals) in
        enroll_and_work retries fuel made.0 made.1
