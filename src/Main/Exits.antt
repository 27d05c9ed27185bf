-- ===== src/Main/Exits.antt =====
-- What the exit code says.
use mayfly_agent.Service.State.{new_state}
use mayfly_agent.Config.Valid.{validate-IsValid, IsValid}
use mayfly_agent.Platform.{is_systemd}
use mayfly_agent.Service.Validation.Startup.{validate_startup_iff}
use mayfly_agent.Service.RuntimeState.{status_path}
use mayfly_agent.Security.Store.{is_dir}
use mayfly_agent.Service.Daemon.Bookkeeping.{DaemonState}
use mayfly_agent.Text.Chars.{text_eq}
use mayfly_agent.Errors.{Error}
use mayfly_agent.Config.{Config}
use mayfly_agent.Float.{Floats}
use mayfly_agent.Prelude.{ℕ, ◌≡◌, refl, sym, ◌∙◌, inl, inr, true, false, Option, none, some}
use mayfly_agent.Result.{err, ok, Result}
use mayfly_agent.Security.Write.{History}
use mayfly_agent.Service.Daemon.Run.{Startup, Ended, stopped}
use mayfly_agent.Main.{
  Process, success, failure, ExitCode, main, main_with, exits, run_agent, run_checked, loaded,
  startup_checks, daemon_of, os, exit_code,
}
use mayfly_agent.Service.Daemon.Run.Final.{run_stops_cleanly, StopCases, IsStoppedCleanly}
use mayfly_agent.Service.Daemon.Run as Daemon

module _ (fl : Floats) (process : Process fl) where
  -- The daemon, if the run got as far as polling, has left the status of a clean stop.
  abbrev pub LeftClean : Config fl → Ended → Option DaemonState → Type 0
  LeftClean config ended none = Unit
  LeftClean config ended (some s) =
      IsStoppedCleanly fl (daemon_of fl process config) s ended.history

  -- The configuration was loaded and is valid, the identity directory was there at the start, and
  -- the stop was clean.
  pub record IsGoodExit (h : History) (ended : Ended) : Type 0 where
    pub config : Config fl
    pub load : loaded fl process ≡ ok config
    pub valid : IsValid fl process.lib config
    pub identity_dir : is_dir (os fl process) h.present config.identity_dir ≡ true
    pub left : LeftClean config ended ended.daemon

  abbrev pub ExitCases : History → Option (Ended × ExitCode) → Type 0
  ExitCases h none = Unit
  ExitCases h (some (ended, success)) = IsGoodExit h ended
  ExitCases h (some (ended, failure)) = (e : Error) × (ended.result ≡ err e)

  module _
      (apart : (config : Config fl)
        → loaded fl process ≡ ok config
        → text_eq (status_path fl config) process.startup.last_run.tmp ≡ false) where
    left_clean :
        (config : Config fl) (ended : Ended) (o : Option DaemonState)
        → StopCases fl (daemon_of fl process config) ended o
        → ended.result ≡ ok tt
        → LeftClean config ended o
    left_clean config ended none c r = tt
    left_clean config ended (some s) (inl (done, clean)) r = clean
    left_clean config ended (some s) (inr (e, failed)) r =
        absurd (let bad : ok tt ≡ err e = sym r ∙ failed in cc)

    coded :
        (h : History) (ended : Ended) (r : Result Error (Unit {0}))
        → ended.result ≡ r
        → (r ≡ ok tt → IsGoodExit h ended)
        → ExitCases h (some (ended, exit_code fl process r))
    coded h ended (ok u) e good = good refl
    coded h ended (err failed) e good = (failed, e)

    run-ExitCases :
        (retries fuel : ℕ) (config : Config fl) (h : History) (o : Option Ended)
        → loaded fl process ≡ ok config
        → startup_checks fl process config h ≡ ok tt
        → Daemon.run fl (daemon_of fl process config) retries fuel h ≡ o
        → ExitCases h (exits fl process o)
    unfolding startup_checks new_state
    run-ExitCases retries fuel config h none l c ran = tt
    run-ExitCases retries fuel config h (some ended) l c ran =
        let checked =
          (validate_startup_iff fl process.lib (os fl process) process.helper
              (is_systemd (os fl process) h.present) config h.present).0
            c in
        coded h ended ended.result refl (λ r. record {
          config = config;
          load = l;
          valid = (validate-IsValid fl process.lib config).0 checked.0;
          identity_dir = checked.1;
          left =
              left_clean config ended ended.daemon
                (run_stops_cleanly fl (daemon_of fl process config) (apart config l) retries fuel h
                  ended ran)
                r;
        })

    checked-ExitCases :
        (retries fuel : ℕ) (config : Config fl) (h : History) (r : Result Error (Unit {0}))
        → loaded fl process ≡ ok config
        → startup_checks fl process config h ≡ r
        → ExitCases h (exits fl process (run_checked fl process retries fuel config h r))
    checked-ExitCases retries fuel config h (err e) l c = (e, refl)
    checked-ExitCases retries fuel config h (ok u) l c =
        run-ExitCases retries fuel config h _ l c refl

    loaded-ExitCases :
        (retries fuel : ℕ) (h : History) (r : Result Error (Config fl))
        → loaded fl process ≡ r
        → ExitCases h (main_with fl process retries fuel h r)
    unfolding run_agent
    loaded-ExitCases retries fuel h (err e) l = (e, refl)
    loaded-ExitCases retries fuel h (ok config) l =
        checked-ExitCases retries fuel config h (startup_checks fl process config h) l refl

    -- Where the status file of the configuration is not the last temporary file: when the process
    -- exits with success, its configuration was loaded and is valid, the identity directory was
    -- there, and, if it got as far as polling, the status on disk is that of a clean stop; and when
    -- it exits with failure, it has ended with an error.
    pub main-ExitCases :
        (retries fuel : ℕ) (h : History) → ExitCases h (main fl process retries fuel h)
    unfolding main
    main-ExitCases retries fuel h = loaded-ExitCases retries fuel h (loaded fl process) refl
