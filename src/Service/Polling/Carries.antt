-- ===== src/Service/Polling/Carries.antt =====
-- What every callback and the sleep preserve, the poll loop preserves.
use mayfly_agent.Service.Scheduler.{bundle_sync, heartbeat_action, next_due, Scheduler, PollAction}
use mathlib.Core.Path.{subst}
use mayfly_agent.Service.Polling.{
  PollState, poll_cycle, run_actions, run_polling, wait_for_due, Polling,
}
use mayfly_agent.Float.{Floats}
use mayfly_agent.Prelude.{
  ℕ, zero, suc, ◌+◌, ◌-◌, ◌≡◌, inl, inr, some, List, [], ◌∷◌, ltb, Bool-cases,
}

module _ (fl : Floats) {S : Type 0} (p : Polling S) (I : S → Type 0)
    (sleep-keeps : (d : ℕ) (s : S) → I s → I (p.sleep d s))
    (heartbeat-keeps : (s : S) → I s → I (p.on_heartbeat s).0)
    (sync-keeps : (s : S) → I s → I (p.on_bundle_sync s).0) where
  pub run_actions_keep : (actions : List PollAction) (s : S) → I s → I (run_actions fl p actions s)
  unfolding run_actions
  run_actions_keep [] s i = i
  run_actions_keep (heartbeat_action ∷ actions) s i =
      run_actions_keep actions (p.on_heartbeat s).0 (heartbeat-keeps s i)
  run_actions_keep (bundle_sync ∷ actions) s i =
      run_actions_keep actions (p.on_bundle_sync s).0 (sync-keeps s i)

  pub wait_keeps : (scheduler : Scheduler fl) (s : S) → I s → I (wait_for_due fl p scheduler s)
  unfolding wait_for_due
  wait_keeps scheduler s i = elim (Bool-cases (ltb (p.now s) (next_due fl scheduler))) [
    | inl e ↦ rw e (sleep-keeps (next_due fl scheduler - p.now s) s i)
    | inr e ↦ rw e i
  ]

  pub poll_cycle_keeps : (st : PollState fl S) → I st.world → I (poll_cycle fl p st).world
  unfolding poll_cycle
  poll_cycle_keeps st i = run_actions_keep _ _ (wait_keeps st.scheduler st.world i)

  pub run_polling_keeps :
      (fuel cycle : ℕ) (st end : PollState fl S)
      → I st.world
      → run_polling fl p fuel cycle st ≡ some end
      → I end.world
  unfolding run_polling
  run_polling_keeps zero cycle st end i h = absurd (cc)
  run_polling_keeps (suc fuel) cycle st end i h =
      elim (Bool-cases (p.should_continue cycle st.world)) [
        | inl e ↦
            run_polling_keeps fuel (cycle + 1) (poll_cycle fl p st) end (poll_cycle_keeps st i)
              (rw (e, run_polling) at h)
        | inr e ↦
            let stopped : some st ≡ some end = rw (e, run_polling) at h in
            let same : st ≡ end = cc in subst (λ (x : PollState fl S). I x.world) same i
      ]
