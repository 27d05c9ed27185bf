-- ===== src/Main.antt =====
-- src/main.rs: the agent's process, from the configuration to the exit code.
pub mod Exits
use mayfly_agent.Crates.{Instant, Crates}
use mayfly_agent.Platform.{is_systemd}
use mayfly_agent.Service.Validation.{validate_startup, into_result}
use mayfly_agent.Ipc.Client.{HelperClient}
use mayfly_agent.Service.State.{new_state}
use mayfly_agent.Config.{TomlConfig, Config, unwrap_or}
use mayfly_agent.Config.Env.{load_config}
use mayfly_agent.Errors.{Error}
use mayfly_agent.Security.Store.{Os}
use mayfly_agent.Text.Chars.{codes, Text}
use mayfly_agent.Float.{Floats}
use mayfly_agent.Prelude.{ℕ, Option, none, some}
use mayfly_agent.Result.{err, ok, Result}
use mayfly_agent.Security.Write.{History}
use mayfly_agent.Service.Daemon.Run.{Startup, Ended, stopped}
use mayfly_agent.Service.Daemon.Run as Daemon

-- What the process meets: the crates, the TOML parser, the files as they are read for the
-- configuration, the environment, the helper, and what a run of the daemon meets.
pub record Process (fl : Floats) : Type 0 where
  pub lib : Crates
  pub from_str : Text → Option (TomlConfig fl)
  pub read : Text → Result Error Text
  pub env : Text → Option Text
  pub helper : Text → HelperClient
  pub started : Instant
  pub startup : Startup fl

pub data ExitCode : Type 0 where
  success failure : ExitCode

abbrev pub default_config_path : Text
default_config_path = codes "/etc/mayfly-agent/config.toml"

module _ (fl : Floats) (process : Process fl) where
  unfoldable pub config_path : Text
  config_path = unwrap_or default_config_path (process.env (codes "MAYFLY_AGENT_CONFIG"))

  abbrev pub os : Os
  os = (process.startup.enroll.outside 0).os

  unfoldable pub startup_checks : Config fl → History → Result Error (Unit {0})
  startup_checks config h =
      into_result (
        validate_startup fl process.lib os process.helper (is_systemd os h.present) config
          h.present)

  -- The daemon of this configuration.
  abbrev pub daemon_of : Config fl → Startup fl
  daemon_of config = record process.startup { state = new_state fl config process.started }

  abbrev pub run_checked : ℕ → ℕ → Config fl → History → Result Error (Unit {0}) → Option Ended
  run_checked retries fuel config h (err e) = stopped fl h (err e)
  run_checked retries fuel config h (ok u) = Daemon.run fl (daemon_of config) retries fuel h

  unfoldable pub run_agent : ℕ → ℕ → Config fl → History → Option Ended
  run_agent retries fuel config h = run_checked retries fuel config h (startup_checks config h)

  abbrev pub exit_code : Result Error (Unit {0}) → ExitCode
  exit_code (ok u) = success
  exit_code (err e) = failure

  abbrev pub exits : Option Ended → Option (Ended × ExitCode)
  exits none = none
  exits (some ended) = some (ended, exit_code ended.result)

  unfoldable pub loaded : Result Error (Config fl)
  loaded = load_config fl process.lib process.from_str (process.read config_path) process.env

  abbrev pub main_with : ℕ → ℕ → History → Result Error (Config fl) → Option (Ended × ExitCode)
  main_with retries fuel h (err e) = exits (stopped fl h (err e))
  main_with retries fuel h (ok config) = exits (run_agent retries fuel config h)

  -- `none` when the fuel of the daemon ran out.
  unfoldable pub main : ℕ → ℕ → History → Option (Ended × ExitCode)
  main retries fuel h = main_with retries fuel h loaded
