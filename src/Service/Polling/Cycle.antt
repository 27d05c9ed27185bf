-- ===== src/Service/Polling/Cycle.antt =====
-- What one cycle of the poll loop does.
use mayfly_agent.Float.{Floats}
use mayfly_agent.Crates.{Instant}
use mayfly_agent.Prelude.{
  ◌-◌, ◌≤◌, ◌<◌, ◌≡◌, refl, ◌⊎◌, inl, inr, false, List, [], ◌∷◌, arith, ltb, leb, if◌then◌else◌,
  Bool-cases, is_empty,
}
use mayfly_agent.Service.Scheduler.{
  heartbeat_action, bundle_sync, Scheduler, PollAction, take_due, next_due,
}
use mayfly_agent.Service.Polling.{wait_for_due, Polling, PollState, poll_cycle, run_actions}
use mayfly_agent.Service.Scheduler.Due.{expected_actions, Rescheduled, JitterFits, take_due_sound}

module _ {S : Type 0} (p : Polling S) where
  -- The callbacks of these actions, one after the other, whatever they return, lead from the first
  -- state to the second.
  pub data Runs : List PollAction → S → S → Type 0 where
    idle : {s : S} → Runs [] s s
    beat_first :
        {actions : List PollAction} {s t : S}
        → Runs actions (p.on_heartbeat s).0 t
        → Runs (heartbeat_action ∷ actions) s t
    sync_first :
        {actions : List PollAction} {s t : S}
        → Runs actions (p.on_bundle_sync s).0 t
        → Runs (bundle_sync ∷ actions) s t

  -- Until the instant: no sleep where it has come, one sleep of exactly the time left where it has
  -- not.
  abbrev pub Waits : Instant → S → S → Type 0
  Waits due s t = ((due ≤ p.now s) × (t ≡ s)) ⊎ ((p.now s < due) × (t ≡ p.sleep (due - p.now s) s))

  run_actions-Runs :
      (fl : Floats) (actions : List PollAction) (s : S)
      → Runs actions s (run_actions fl p actions s)
  unfolding run_actions
  run_actions-Runs fl [] s = idle
  run_actions-Runs fl (heartbeat_action ∷ actions) s =
      beat_first (run_actions-Runs fl actions (p.on_heartbeat s).0)
  run_actions-Runs fl (bundle_sync ∷ actions) s =
      sync_first (run_actions-Runs fl actions (p.on_bundle_sync s).0)

module _ (fl : Floats) {S : Type 0} (p : Polling S) where
  abbrev pub earlier : Scheduler fl → Instant
  earlier s = if leb s.heartbeat_due s.sync_due then s.heartbeat_due else s.sync_due

  wait_for_due-Waits :
      (scheduler : Scheduler fl) (s : S)
      → Waits p (earlier scheduler) s (wait_for_due fl p scheduler s)
  unfolding wait_for_due next_due
  wait_for_due-Waits scheduler s = elim (Bool-cases (ltb (p.now s) (next_due fl scheduler))) [
    | inl e ↦ rw e (inr (ground arith, refl))
    | inr e ↦ rw e (inl (ground arith, refl))
  ]

  -- At this instant: nothing is due where neither time has come, and some action otherwise.
  abbrev pub ActsIfDue : Instant → Scheduler fl → List PollAction → Type 0
  ActsIfDue now s actions =
      ((now < s.heartbeat_due) × (now < s.sync_due) × (actions ≡ []))
      ⊎ (((s.heartbeat_due ≤ now) ⊎ (s.sync_due ≤ now)) × (is_empty actions ≡ false))

  expected-ActsIfDue :
      (now : Instant) (s : Scheduler fl) → ActsIfDue now s (expected_actions fl now s)
  expected-ActsIfDue now s = elim (Bool-cases (leb s.heartbeat_due now)) [
    | inl e ↦ elim (Bool-cases (leb s.sync_due now)) [
      | inl f ↦ rw (e, f) (inr (inl (ground arith), refl))
      | inr f ↦ rw (e, f) (inr (inl (ground arith), refl))
    ]
    | inr e ↦ elim (Bool-cases (leb s.sync_due now)) [
      | inl f ↦ rw (e, f) (inr (inr (ground arith), refl))
      | inr f ↦ rw (e, f) (inl (ground arith, ground arith, refl))
    ]
  ]

  -- A cycle from `before` to `after`, which waits until `waited` and runs these actions.
  pub record IsCycle (before after : PollState fl S) : Type 0 where
    pub waited : S
    pub actions : List PollAction
    pub waits : Waits p (earlier before.scheduler) before.world waited
    pub due : actions ≡ expected_actions fl (p.now waited) before.scheduler
    pub acts : ActsIfDue (p.now waited) before.scheduler actions
    pub runs : Runs p actions waited after.world
    pub heartbeat_again :
        Rescheduled fl before.scheduler.heartbeat
          (p.now waited)
          before.scheduler.heartbeat_due
          after.scheduler.heartbeat_due
    pub sync_again :
        Rescheduled fl before.scheduler.sync
          (p.now waited)
          before.scheduler.sync_due
          after.scheduler.sync_due

  -- A cycle of the poll loop sleeps once, for exactly the time until the earlier of the two due
  -- instants, or not at all where that has come; then it runs exactly the actions due at the time
  -- it wakes, the heartbeat first, at least one unless the sleep ended early, and whatever they
  -- return; and these are due again one to two intervals later, the others when they were. It is
  -- assumed that the jitter of an interval is at most the interval.
  pub poll_cycle_lem :
      (st : PollState fl S)
      → JitterFits fl st.scheduler.heartbeat
      → JitterFits fl st.scheduler.sync
      → IsCycle st (poll_cycle fl p st)
  unfolding poll_cycle
  poll_cycle_lem st fh fs =
      let waited = wait_for_due fl p st.scheduler st.world in
      let (due, again, again2) = take_due_sound fl (p.now waited) st.scheduler st.rng fh fs in
      record {
        waited = waited;
        actions = (take_due fl (p.now waited) st.scheduler st.rng).0;
        waits = wait_for_due-Waits st.scheduler st.world;
        due = due;
        acts = rw due (expected-ActsIfDue (p.now waited) st.scheduler);
        runs = run_actions-Runs p fl _ waited;
        heartbeat_again = again;
        sync_again = again2;
      }
