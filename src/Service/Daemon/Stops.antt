-- ===== src/Service/Daemon/Stops.antt =====
-- The poll loop ends when shutdown is requested.
use mayfly_agent.Service.Shutdown.{default_sleep_step, clamp_step}
use mayfly_agent.Service.Shutdown.Chunks.{sleep_chunks-positive, sleep_chunks_lem}
use mayfly_agent.Service.Polling.Runs.{due_nonempty, run_polling_stops}
use mayfly_agent.Service.Scheduler.{take_due, next_due, bundle_sync, heartbeat_action, PollAction}
use mathlib.Core.Path.{subst}
use mayfly_agent.Service.Polling.{PollState, wait_for_due, poll_cycle, run_actions}
use mayfly_agent.Service.Daemon.Bookkeeping.{
  run_poll_loop, callbacks, persist_status, DaemonState, sleep_for, record_sync, record_heartbeat,
  Prepared, Surroundings,
}
use mayfly_agent.Service.Polling.Carries.{run_actions_keep}
use mayfly_agent.Crates.{Instant}
use mayfly_agent.Float.{Floats}
use mayfly_agent.Prelude.{
  ℕ, ◌+◌, ◌-◌, ◌*◌, ◌≤◌, ◌<◌, ◌≡◌, inl, inr, Bool, true, false, some, List, [], ◌∷◌, arith, ltb,
  leb, Bool-cases, is_empty,
}

module _ (fl : Floats) (out : Surroundings) (p : Prepared fl)
    (takes_time : (n : ℕ) → 0 < out.took n) where
  abbrev Since : Instant → DaemonState → Type 0
  Since t s = t ≤ s.now

  pub heartbeat_later :
      (t : Instant) (s : DaemonState) → t ≤ s.now → t < (record_heartbeat fl out p s).0.now
  unfolding record_heartbeat persist_status
  heartbeat_later t s l = let more = takes_time s.calls in omega arith

  pub sync_later : (t : Instant) (s : DaemonState) → t ≤ s.now → t < (record_sync fl out p s).0.now
  unfolding record_sync persist_status
  sync_later t s l = let more = takes_time s.calls in omega arith

  sleep_later :
      (t : Instant) (d : ℕ) (s : DaemonState) → t ≤ s.now → t ≤ (sleep_for fl out p d s).now
  unfolding sleep_for
  sleep_later t d s l = omega arith

  -- Once the clock is past `t`, it stays so.
  actions_past :
      (t : Instant) (actions : List PollAction) (s : DaemonState)
      → t < s.now
      → t < (run_actions fl (callbacks fl out p) actions s).now
  actions_past t actions s l =
      run_actions_keep fl (callbacks fl out p) (λ x. t < x.now)
        (λ d x k. let l = sleep_later x.now d x (omega arith) in omega arith)
        (λ x k. heartbeat_later t x (omega arith)) (λ x k. sync_later t x (omega arith)) actions s l

  actions_later :
      (actions : List PollAction) (s : DaemonState)
      → is_empty actions ≡ false
      → s.now < (run_actions fl (callbacks fl out p) actions s).now
  unfolding run_actions
  actions_later [] s h = absurd (cc)
  actions_later (heartbeat_action ∷ actions) s h =
      actions_past s.now actions (record_heartbeat fl out p s).0
        (heartbeat_later s.now s (omega arith))
  actions_later (bundle_sync ∷ actions) s h =
      actions_past s.now actions (record_sync fl out p s).0 (sync_later s.now s (omega arith))

  slept_some :
      (d : ℕ) (s : DaemonState)
      → out.shutdown s.now ≡ false
      → 0 < d
      → s.now < (sleep_for fl out p d s).now
  unfolding sleep_for clamp_step
  slept_some d s f pos =
      let flag : ℕ → Bool = λ i. out.shutdown (s.now + i * clamp_step default_sleep_step) in
      let step = clamp_step default_sleep_step in
      let (chunks, ran, _) = sleep_chunks_lem (d + 1) flag step 0 d (omega arith) (omega arith) in
      let unset : flag 0 ≡ false = subst (λ t. out.shutdown t ≡ false) (omega arith) f in
      let grown = sleep_chunks-positive (d + 1) flag step 0 d chunks ran (omega arith) pos unset in
      rw ran (omega arith)

  cycle_later :
      (st : PollState fl DaemonState)
      → out.shutdown st.world.now ≡ false
      → st.world.now < (poll_cycle fl (callbacks fl out p) st).world.now
  unfolding poll_cycle wait_for_due
  cycle_later st f =
      let due = next_due fl st.scheduler in
      elim (Bool-cases (ltb st.world.now due)) [
        | inl e ↦
            let waited = sleep_for fl out p (due - st.world.now) st.world in
            rw e (
              actions_past st.world.now (take_due fl waited.now st.scheduler st.rng).0 waited
                (slept_some (due - st.world.now) st.world f (ground arith)))
        | inr e ↦ rw e (
            actions_later (take_due fl st.world.now st.scheduler st.rng).0 st.world (
              due_nonempty fl (callbacks fl out p) st.world.now st.scheduler st.rng (ground arith)))
      ]

  -- Where every call takes time and shutdown stays requested from `stop` on, the poll loop returns,
  -- with more fuel than there is time left until then.
  pub run_poll_loop_stops :
      (stop : Instant) (fuel : ℕ) (st : PollState fl DaemonState)
      → ((t : Instant) → stop ≤ t → out.shutdown t ≡ true)
      → stop - st.world.now < fuel
      → (end : PollState fl DaemonState) × (run_poll_loop fl out p fuel st ≡ some end)
  unfolding run_poll_loop
  run_poll_loop_stops stop fuel st requested enough =
      run_polling_stops fl (callbacks fl out p) (λ s. stop - s.now) fuel 0 st
        (λ n x go. shorter x (ground (arith, go))) enough
    where
      shorter :
          (x : PollState fl DaemonState)
          → out.shutdown x.world.now ≡ false
          → stop - (poll_cycle fl (callbacks fl out p) x).world.now < stop - x.world.now
      shorter x f = elim (Bool-cases (leb stop x.world.now)) [
        | inl e ↦ absurd (let set = requested x.world.now (ground arith) in cc)
        | inr e ↦ let later = cycle_later x f in ground arith
      ]
