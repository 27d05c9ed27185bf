-- ===== src/Tests/Daemon.antt =====
-- A run of an enrolled agent, from its start to the clean stop, and instances of the theorems on it:
-- the server has nothing new, and shutdown is requested while the agent waits for its next action.
use mayfly_agent.Security.{
  mode_dir, directory, metadata, ensure_not_symlink, validate_mode_at_most, is_symlink,
  ensure_not_group_or_world_writable, validate_owner, symlink_metadata, mode_public, file, Entry,
}
use mayfly_agent.Service.Daemon.Running.{Reaches-Running, Running}
use mayfly_agent.Tests.Requests.{toy_keypair, client}
use mayfly_agent.Service.Daemon.Bookkeeping.{
  Prepared, DaemonState, record_sync, record_heartbeat, run_poll_loop, persist_status, sleep_for,
  Surroundings,
}
use mayfly_agent.Identity.Machine.{MachineIdentity, load, into_identity}
use mayfly_agent.Service.Daemon.Reaches.{beats, here, next}
use mayfly_agent.Service.Daemon.Run.{
  prepared, first_state, first_status, work, after_enrollment, recover, stop_cleanly, Startup,
  Ended,
}
use mayfly_agent.Protocol.CaSync.Reported.{generation_of}
use mayfly_agent.Config.{
  bundle_fingerprint_path, bundle_signing_key_path, generation_path, with_defaults,
}
use mayfly_agent.Result.{is_ok, err, ok}
use mayfly_agent.Text.Decimal.{parse_u64, decimal, parse_digits}
use mayfly_agent.Identity.Keypair.{
  public_key_openssh, from_openssh_private, sign, validate_ed25519_public_key,
}
use mayfly_agent.Protocol.CaSync.Load.{
  fetch_bundle, sign_at, trimmed_text, read_optional, load_state, read_optional_string,
  parse_generation, read_generation,
}
use mayfly_agent.Text.Integer.{difference}
use mayfly_agent.Service.Polling.{run_polling, wait_for_due, poll_cycle, run_actions}
use mayfly_agent.Service.Scheduler.{
  next_due, next_u64, next_delay, new_interval, new_scheduler, take_sync, take_heartbeat, take_due,
}
use mayfly_agent.Security.Store.{read_to_string, and_then, is_file, read_file}
use mayfly_agent.Platform.{local_ip, host_facts}
use mayfly_agent.Service.RuntimeState.{
  read_optional_file, read_optional_text, current_generation, ensure_state_dir, load_status,
  save_status, status_path, StatusFormat,
}
use mayfly_agent.Text.Chars.{is_whitespace, codes, ends_with_code, Text, text_eq}
use mayfly_agent.Security.Write.{
  atomic_replace, parent_of, write_contents, fill, parent, secure_write, History,
}
use mayfly_agent.Identity.Enrollment.Service.{load_machine_identity, read_keypair}
use mayfly_agent.Identity.Enrollment.{validate_server_url, validate_hostname, is_valid_interval}
use mayfly_agent.Text.Trim.{trim_end, trim, trim_start, trim_end_matches}
use mayfly_agent.Text.Utf8.{as_bytes, from_utf8}
use mayfly_agent.Protocol.Heartbeat.{send_heartbeat, validate_response}
use mayfly_agent.Protocol.CaSync.Step.{write_timestamp}
use mayfly_agent.Identity.Enrollment.Requests.{
  validate_private_key_security, is_enrolled, join, new_service,
}
use mayfly_agent.Protocol.CaSync.Pass.{synchronize, settle, process}
use mayfly_agent.Protocol.Signing.{unix_timestamp, sign_request}
use mayfly_agent.Service.Shutdown.{sleep_chunks, clamp_step}
use mayfly_agent.Service.Daemon.Enrolling.{ensure_enrolled}
use mayfly_agent.Protocol.CaSync.Step as Step
use mayfly_agent.Service.Daemon.Run.Final.{run_stops_cleanly, run-IsHonest, StopCases, IsHonest}
use mayfly_agent.Service.Daemon.Run.Returns.{key_path, IsApart, run_returns, IsBack}
use mayfly_agent.Errors.{enrollment_transport}
use mayfly_agent.Security.Frame.{Stands, Throughout}
use mayfly_agent.Tests.Toy.{toy, five_seconds}
use mayfly_agent.Crates.{Instant}
use mayfly_agent.Prelude.{
  ℕ, ◌≡◌, refl, Bool, true, false, Option, none, some, [], arith, ltb, leb, if◌then◌else◌, length,
}
use mayfly_agent.Tests.Enrolling.{key_entry, outside}
use mayfly_agent.Tests.Sync.{service, reads_u64}
use mayfly_agent.Tests.Startups.{no_helper}
use mayfly_agent.Tests.Writes.{run}
use mayfly_agent.Tests.Configs.{config}
use mayfly_agent.Tests.Cadence.{toy_floats, draws}
use mayfly_agent.Service.Daemon.Run as Daemon

abbrev key_file : Text
key_file = codes "/etc/mayfly-agent/machine_ed25519"

abbrev generation_entry : Entry
generation_entry = record { kind = file; uid = 0; mode = mode_public; content = codes "2\n" }

abbrev identity_dir : Entry
identity_dir = record { kind = directory; uid = 0; mode = mode_dir; content = [] }

abbrev entry_of : Text → Option Entry
entry_of p =
    if text_eq p key_file
    then some key_entry
    else if text_eq p (codes "/etc/mayfly-agent/machine.json")
    then some key_entry
    else if text_eq p (codes "/var/lib/mayfly/current_generation")
    then some generation_entry
    else if text_eq p (codes "/etc/mayfly-agent")
    then some identity_dir
    else none

abbrev pub at_boot : History
at_boot = record { present = record { lookup = entry_of; unreadable = λ p. false }; past = [] }

abbrev status_format : StatusFormat
status_format = record { to_vec_pretty = λ status. some (codes "{}"); from_slice = λ bytes. none }

-- Shutdown is requested from this instant on.
abbrev stop : Instant
stop = 9_000_000_000

abbrev around : Surroundings
around = record {
  lib = toy;
  heartbeat = λ n. client;
  sync = λ n. record service { get = λ request. ok (record { status = 304; body = [] }) };
  applier = λ n. record { token_file = none; client = no_helper };
  status_format = status_format;
  status_run = λ n. record run { dir_synced = true };
  took = λ n. 1;
  shutdown = λ t. leb stop t;
}

abbrev pub start : Startup toy_floats
start = record {
  state = record { config = config; startup_time = five_seconds };
  version = codes "0.1.0";
  host = record {
    nodename = codes "web-01";
    release = codes "6";
    os = codes "linux";
    arch = codes "x86_64";
    bind = false;
    connect = false;
    local_addr = none;
  };
  created = true;
  permitted = true;
  signals = ok tt;
  enroll = record {
    outside = λ n. outside;
    client = λ n. record {
      post_json = λ url body. err enrollment_transport;
      request_to_json = λ request. none;
      response_from_json = λ body. none;
      server_url = [];
    };
    token = none;
    http = ok tt;
    shutdown = λ n. ltb 0 n;
    pin_run = run;
  };
  retry_draws = draws;
  requested = false;
  now = five_seconds;
  hb_transport = ok tt;
  ca_transport = ok tt;
  draws = draws;
  first_run = record run { dir_synced = true };
  last_run = record run { dir_synced = true };
  out = around;
}

abbrev ran : Option Ended
ran = Daemon.run toy_floats start 2 4_000_000_001 at_boot

key-Stands : Throughout (Stands (key_path toy_floats start key_entry) (some key_entry)) at_boot
unfolding text_eq new_service join with_defaults ends_with_code
key-Stands = ((refl, refl), tt)

apart : IsApart toy_floats start key_entry
unfolding text_eq with_defaults new_service join ends_with_code bundle_signing_key_path status_path
apart = record {
  record_file = refl;
  record_tmp = λ n. refl;
  pin = refl;
  pin_tmp = refl;
  state_dir = refl;
  status = refl;
  first_tmp = refl;
  status_tmp = λ n. refl;
  last_tmp = refl;
}

run_returns_example : IsBack toy_floats start key_entry ran
run_returns_example =
    run_returns toy_floats start key_entry apart stop 4_000_000_001 (λ n. omega arith)
      (λ t later. ground arith) (omega arith) 1 2 refl (omega arith) at_boot key-Stands

returned : IsBack toy_floats start key_entry ran
returned =
    run_returns toy_floats start key_entry apart stop 4_000_000_001 (λ n. omega arith)
      (λ t later. ground arith) (omega arith) 1 2 refl (omega arith) at_boot key-Stands

run-IsHonest_example : IsHonest returned.0.daemon
run-IsHonest_example =
    run-IsHonest toy_floats start (λ n. reads_u64) 2 4_000_000_001 at_boot returned.0 returned.1

status_apart : text_eq (status_path toy_floats config) (codes "/s/.tmp1") ≡ false
unfolding text_eq with_defaults join ends_with_code status_path
status_apart = refl

run_stops_cleanly_example : StopCases toy_floats start returned.0 returned.0.daemon
run_stops_cleanly_example =
    run_stops_cleanly toy_floats start status_apart 2 4_000_000_001 at_boot returned.0 returned.1

-- Of a run: the result, the heartbeats sent, the generation of the last one, whether the status says
-- that the stop was clean, and the outcome of the last pass.
abbrev digest_of : Ended → Option DaemonState → Option (Bool × (ℕ × (ℕ × (Bool × Option Text))))
digest_of ended none = none
digest_of ended (some s) = some (
  is_ok ended.result,
  (
    length s.sent,
    (s.status.current_generation, (s.status.clean_shutdown, s.status.last_sync_outcome)),
  ),
)

abbrev digest : Option Ended → Option (Bool × (ℕ × (ℕ × (Bool × Option Text))))
digest none = none
digest (some ended) = digest_of ended ended.daemon

-- One heartbeat and one pass, which finds nothing new, and a clean stop.
ran-digest : digest ran ≡ some (true, (1, (2, (true, some (codes "not_modified")))))
unfolding Daemon.run ensure_state_dir ensure_not_symlink is_symlink symlink_metadata and_then
    ensure_enrolled is_enrolled is_file new_service join ends_with_code load_machine_identity
    read_keypair validate_private_key_security validate_owner metadata
    ensure_not_group_or_world_writable validate_mode_at_most read_to_string read_file from_utf8
    from_openssh_private text_eq public_key_openssh validate_ed25519_public_key load into_identity
    with_defaults after_enrollment work recover current_generation generation_path
    read_optional_text read_optional_file trimmed_text parse_u64 parse_digits trim trim_start
    trim_end is_whitespace load_status status_path save_status secure_write write_contents fill
    atomic_replace parent_of parent trim_end_matches host_facts local_ip stop_cleanly run_poll_loop
    run_polling poll_cycle wait_for_due next_due take_due take_heartbeat take_sync next_delay
    next_u64 new_scheduler new_interval run_actions record_heartbeat record_sync persist_status
    sleep_for sleep_chunks send_heartbeat sign_request sign validate_response synchronize load_state
    fetch_bundle sign_at settle process write_timestamp read_generation read_optional_string
    read_optional parse_generation as_bytes decimal Step.secure_write unix_timestamp clamp_step
    difference bundle_fingerprint_path bundle_signing_key_path generation_of is_valid_interval
    validate_hostname validate_server_url
ran-digest = refl

-- The same agent as it polls, after the first write of its status.
abbrev status_entry : Entry
status_entry = record { kind = file; uid = 0; mode = mode_public; content = codes "{}\n" }

abbrev the_identity : MachineIdentity
the_identity = record {
  machine_id = codes "srv_1";
  hostname = codes "web-01";
  public_key = [];
  private_key_path = key_file;
  public_key_path = [];
  enrolled_at = five_seconds;
  server_url = codes "https://mayfly";
  heartbeat_interval = 60_000_000_000;
  sync_interval = 300_000_000_000;
}

abbrev ready : Prepared toy_floats
ready = prepared toy_floats start the_identity toy_keypair toy_keypair

abbrev polling : DaemonState
polling = record (first_state toy_floats start ready 2 at_boot) {
  history = record {
    present = record {
      lookup = λ p.
          if text_eq p (codes "/var/lib/mayfly/runtime_status.json")
          then some status_entry
          else none;
      unreadable = λ p. false;
    };
    past = [];
  };
}

polling-Running : Running toy_floats around ready polling
unfolding status_path join with_defaults text_eq ends_with_code
polling-Running = (
  (
    record {
      status = first_status toy_floats start ready 2;
      json = codes "{}";
      uid = 0;
      unclean = refl;
      printed = refl;
      stored = refl;
    },
    tt,
  ),
  refl,
)

Reaches-Running_example :
    Running toy_floats around ready (record_heartbeat toy_floats around ready polling).0
Reaches-Running_example =
    Reaches-Running toy_floats around ready (λ n. status_apart) (next here (beats refl))
      polling-Running
