-- ===== src/Service/State.antt =====
-- src/state.rs and src/service/agent.rs: the shared state, and the up time that the agent reads off
-- it. The injected clock is the present instant.
use mayfly_agent.Crates.{Instant}
use mayfly_agent.Config.{Config}
use mayfly_agent.Float.{Floats}
use mayfly_agent.Prelude.{ℕ, ◌-◌, ltb, if◌then◌else◌}

pub record AppState (fl : Floats) : Type 0 where
  pub config : Config fl
  pub startup_time : Instant

module _ (fl : Floats) where
  unfoldable pub new_state : Config fl → Instant → AppState fl
  new_state config now = record { config = config; startup_time = now }

  -- A clock that went backwards gives zero.
  unfoldable pub uptime : AppState fl → Instant → ℕ
  uptime state now = if ltb now state.startup_time then 0 else now - state.startup_time
