-- ===== src/Service/Daemon/Reaches.antt =====
-- The states that the daemon passes through, as steps of three kinds.
use mayfly_agent.Service.Daemon.Bookkeeping.{
  callbacks, sleep_for, record_sync, record_heartbeat, run_poll_loop, DaemonState, Prepared,
  Surroundings,
}
use mayfly_agent.Service.Polling.Carries.{run_polling_keeps}
use mayfly_agent.Service.Polling.{PollState}
use mayfly_agent.Float.{Floats}
use mayfly_agent.Prelude.{ℕ, ◌≡◌, refl, some}

module _ (fl : Floats) (out : Surroundings) (p : Prepared fl) where
  pub data DaemonStep (s t : DaemonState) : Type 0 where
    beats : t ≡ (record_heartbeat fl out p s).0 → DaemonStep s t
    syncs : t ≡ (record_sync fl out p s).0 → DaemonStep s t
    sleeps : (d : ℕ) → t ≡ sleep_for fl out p d s → DaemonStep s t

  pub data Reaches (s : DaemonState) : DaemonState → Type 0 where
    here : Reaches s s
    next : {t u : DaemonState} → Reaches s t → DaemonStep t u → Reaches s u

  -- The poll loop takes no other steps.
  pub run_poll_loop-Reaches :
      (fuel : ℕ) (st end : PollState fl DaemonState)
      → run_poll_loop fl out p fuel st ≡ some end
      → Reaches st.world end.world
  unfolding run_poll_loop
  run_poll_loop-Reaches fuel st end h =
      run_polling_keeps fl (callbacks fl out p) (Reaches st.world) (λ d s r. next r (sleeps d refl))
        (λ s r. next r (beats refl)) (λ s r. next r (syncs refl)) fuel 0 st end here h
