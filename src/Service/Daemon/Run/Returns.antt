-- ===== src/Service/Daemon/Run/Returns.antt =====
-- A run comes back, and leaves the private key alone.
use mayfly_agent.Service.Daemon.Run.Recovered.{recover-reads}
use mayfly_agent.Service.Daemon.Run.Untouched.{
  Reaches-Untouched, save_status-Keeps, Untouched, state_dir-Keeps, KeyStays,
}
use mayfly_agent.Service.Daemon.Reaches.{run_poll_loop-Reaches, beats, syncs, here, next, Reaches}
use mayfly_agent.Service.Daemon.Stops.{run_poll_loop_stops, sync_later, heartbeat_later}
use mayfly_agent.Service.Daemon.Run.{
  first_calls, poll_start, first_status, clean_status, enroll_and_work, poll, stopped, stop_cleanly,
  work, after_enrollment, recover, Ended, Startup, run,
}
use mayfly_agent.Platform.{host_facts}
use mayfly_agent.Service.Daemon.Enrolling.Keys.{ensure_enrolled_keeps_key, read-Keeps}
use mayfly_agent.Result.{err, ok, Result}
use mayfly_agent.Security.Keeps.{pure-Keeps, and_then-Keeps, Keeps, bind-Keeps, reading-Keeps}
use mayfly_agent.Service.Polling.{PollState}
use mayfly_agent.Errors.{Error}
use mayfly_agent.Security.Store.{pure}
use mayfly_agent.Identity.Machine.{MachineIdentity}
use mayfly_agent.Crates.{Instant}
use mathlib.Core.Path.{subst}
use mayfly_agent.Service.Daemon.Bookkeeping.{record_heartbeat, Prepared, DaemonState}
use mayfly_agent.Security.{Entry}
use mayfly_agent.Config.{bundle_signing_key_path}
use mayfly_agent.Service.RuntimeState.{status_path, ensure_state_dir}
use mayfly_agent.Identity.Enrollment.Requests.{new_service}
use mayfly_agent.Security.Frame.{Stands, Throughout}
use mayfly_agent.Text.Chars.{text_eq, Text}
use mayfly_agent.Float.{Floats}
use mayfly_agent.Prelude.{
  ℕ, ◌-◌, ◌≤◌, ◌<◌, ◌≡◌, refl, sym, ap, Bool, true, false, Option, some, arith, if◌then◌else◌,
}
use mayfly_agent.Security.Write.{History}

module _ (fl : Floats) (start : Startup fl) (entry : Entry) where
  abbrev pub key_path : Text
  key_path = (new_service start.state.config.identity_dir).private_key_path

  -- The private key's path is that of no other file that the daemon writes.
  pub record IsApart : Type 0 where
    pub record_file :
        text_eq key_path (new_service start.state.config.identity_dir).record_path ≡ false
    pub record_tmp : (n : ℕ) → text_eq key_path (start.enroll.outside n).record_run.tmp ≡ false
    pub pin : text_eq key_path (bundle_signing_key_path fl start.state.config) ≡ false
    pub pin_tmp : text_eq key_path start.enroll.pin_run.tmp ≡ false
    pub state_dir : text_eq key_path start.state.config.state_dir ≡ false
    pub status : text_eq key_path (status_path fl start.state.config) ≡ false
    pub first_tmp : text_eq key_path start.first_run.tmp ≡ false
    pub status_tmp : (n : ℕ) → text_eq key_path (start.out.status_run n).tmp ≡ false
    pub last_tmp : text_eq key_path start.last_run.tmp ≡ false

  recover-Keeps :
      (identity : MachineIdentity) → Keeps (KeyStays key_path entry) (recover fl start identity)
  unfolding recover
  recover-Keeps identity =
      let I = KeyStays key_path entry in
      bind-Keeps I _ _ (read-Keeps I _ _) (λ hb. bind-Keeps I _ _ (read-Keeps I _ _) (λ sync.
        bind-Keeps I _ _ (reading-Keeps I _) (λ generation.
          bind-Keeps I _ _ (reading-Keeps I _) (λ status.
            bind-Keeps I _ _ (pure-Keeps I _)
              (λ u. bind-Keeps I _ _ (pure-Keeps I _) (λ v. pure-Keeps I _))))))

  -- The run returned, and the key stands.
  abbrev pub IsBack : Option Ended → Type 0
  IsBack o =
      (ended : Ended) × (o ≡ some ended) × Throughout (Stands key_path (some entry)) ended.history

  module _ (apart : IsApart) (stop fuel : ℕ) (takes_time : (n : ℕ) → 0 < start.out.took n)
      (requested : (t : Instant) → stop ≤ t → start.out.shutdown t ≡ true)
      (enough : stop - start.now < fuel) where
    cleanly-IsBack :
        (end : PollState fl DaemonState)
        → KeyStays key_path entry end.world.history
        → IsBack (stop_cleanly fl start (some end))
    unfolding stop_cleanly KeyStays Keeps
    cleanly-IsBack end i = (
      _,
      refl,
      save_status-Keeps fl start.state.config key_path entry start.out.status_format start.last_run
          (clean_status fl start end.world) apart.status apart.last_tmp end.world.history i,
    )

    poll-IsBack :
        (p : Prepared fl) (s : DaemonState) (r : Result Error (Unit {0}))
        → p.config ≡ start.state.config
        → s.now ≡ start.now
        → KeyStays key_path entry s.history
        → IsBack (poll fl start fuel p s r)
    unfolding KeyStays Untouched
    poll-IsBack p s (err e) same now i = (_, refl, i)
    poll-IsBack p s (ok u) same now i =
        let status_apart : text_eq key_path (status_path fl p.config) ≡ false =
          subst (λ c. text_eq key_path (status_path fl c) ≡ false) (sym same) apart.status in
        let beat = heartbeat_later fl start.out p takes_time s.now s (omega arith) in
        let synced =
          sync_later fl start.out p takes_time s.now (record_heartbeat fl start.out p s).0
            (omega arith) in
        let begun = poll_start fl start p (first_calls fl start p s) in
        let (end, ran) =
          run_poll_loop_stops fl start.out p takes_time stop fuel begun requested (omega arith) in
        let called : Reaches fl start.out p s (first_calls fl start p s) =
          next (next here (beats refl)) (syncs refl) in
        let kept =
          Reaches-Untouched fl start.out p key_path entry status_apart apart.status_tmp called i in
        let still =
          Reaches-Untouched fl start.out p key_path entry status_apart apart.status_tmp
            (run_poll_loop-Reaches fl start.out p fuel begun end ran) kept in
        rw ran (cleanly-IsBack end still)

    work-IsBack :
        (r : History × Result Error (Prepared fl × ℕ))
        → ((p : Prepared fl) (g : ℕ) → r.1 ≡ ok (p, g) → p.config ≡ start.state.config)
        → KeyStays key_path entry r.0
        → IsBack (work fl start fuel r)
    unfolding work KeyStays Keeps
    work-IsBack (h, err e) configured i = (_, refl, i)
    work-IsBack (h, ok (p, g)) configured i = poll-IsBack p _ _ (configured p g refl) refl (
        save_status-Keeps fl start.state.config key_path entry start.out.status_format
          start.first_run (first_status fl start p g) apart.status apart.first_tmp h i)

    unless-IsBack :
        (b : Bool) (identity : MachineIdentity) (h : History)
        → KeyStays key_path entry h
        → IsBack
            (if b then stopped fl h (ok tt) else work fl start fuel (recover fl start identity h))
    unfolding KeyStays Keeps
    unless-IsBack true identity h i = (_, refl, i)
    unless-IsBack false identity h i =
        work-IsBack (recover fl start identity h)
          (λ p g r.
            (recover-reads fl start identity h _ p g
              (ap (λ x. ((recover fl start identity h).0, x)) r)).1)
          (recover-Keeps identity h i)

    after_enrollment-IsBack :
        (r : History × Result Error MachineIdentity)
        → KeyStays key_path entry r.0
        → IsBack (after_enrollment fl start fuel (some r))
    unfolding after_enrollment KeyStays
    after_enrollment-IsBack (h, err e) i = (_, refl, i)
    after_enrollment-IsBack (h, ok identity) i = unless-IsBack start.requested identity h i

    module _ (k retries : ℕ) (stopping : start.enroll.shutdown k ≡ true) (tries : k < retries) where
      enroll-IsBack :
          (r : Result Error (Unit {0})) (h : History)
          → KeyStays key_path entry h
          → IsBack (enroll_and_work fl start retries fuel h r)
      unfolding KeyStays
      enroll-IsBack (err e) h i = (_, refl, i)
      enroll-IsBack (ok u) h i =
          let (r, ran, kept) =
            ensure_enrolled_keeps_key fl start.enroll start.state.config
              (new_service start.state.config.identity_dir) (host_facts start.host).hostname entry
              apart.record_file apart.record_tmp apart.pin apart.pin_tmp k retries start.retry_draws
              h stopping tries i in
          rw ran (after_enrollment-IsBack r kept)

      -- Where a private key stands as the agent starts, under a path that is that of no other file
      -- it writes: if calls take time and shutdown is requested from some instant on, and at some
      -- check of it during enrollment, then `run` returns, given fuel for the time and the checks
      -- until then, and the key has stood unchanged through every state of the file system. The
      -- writes of the five state files in a pass are not among these states.
      pub run_returns :
          (h : History)
          → Throughout (Stands key_path (some entry)) h
          → IsBack (run fl start retries fuel h)
      unfolding run KeyStays Keeps
      run_returns h i = enroll-IsBack _ _ (
          and_then-Keeps (KeyStays key_path entry)
            (ensure_state_dir (start.enroll.outside 0).os start.created start.permitted
              start.state.config.state_dir h)
            (λ u. pure start.signals)
            (state_dir-Keeps fl start.state.config key_path entry (start.enroll.outside 0).os
              start.created start.permitted apart.state_dir h i)
            (λ u. pure-Keeps (KeyStays key_path entry) start.signals))
