-- ===== src/Service/Polling/Runs.antt =====
-- What the poll loop does in a cycle and over a run.
use mayfly_agent.Service.Scheduler.{
  take_sync, take_heartbeat, heartbeat_action, bundle_sync, Scheduler, RandomSource, PollAction,
  take_due, next_due,
}
use mathlib.Core.Path.{subst}
use mayfly_agent.Service.Polling.{
  wait_for_due, Polling, PollState, run_polling, poll_cycle, run_actions,
}
use mayfly_agent.Crates.{Instant}
use mayfly_agent.Prelude.{
  ℕ, zero, suc, ◌+◌, ◌-◌, ◌≤◌, ◌<◌, ◌≡◌, refl, ap, ◌∙◌, inl, inr, true, false, some, List, [], ◌∷◌,
  arith, leb, Bool-cases, is_empty,
}
use mayfly_agent.Float.{Floats}

module _ (fl : Floats) {S : Type 0} (p : Polling S) where
  pub due_nonempty :
      (now : Instant) (s : Scheduler fl) (rng : RandomSource)
      → next_due fl s ≤ now
      → is_empty (take_due fl now s rng).0 ≡ false
  unfolding next_due take_due take_heartbeat take_sync
  due_nonempty now s rng h = elim (Bool-cases (leb s.heartbeat_due now)) [
    | inl e ↦ rw (e, take_heartbeat, take_due) refl
    | inr e ↦
        let d : leb s.sync_due now ≡ true = ground arith in
        rw (e, d, take_heartbeat, take_sync, take_due) refl
  ]

  -- The loop returns, with one more unit of fuel than cycles, where `should_continue` refuses one
  -- of the cycles ahead.
  pub run_polling_returns :
      (left cycle fuel : ℕ) (st : PollState fl S)
      → ((world : S) → p.should_continue (cycle + left) world ≡ false)
      → left < fuel
      → (end : PollState fl S) × (run_polling fl p fuel cycle st ≡ some end)
  unfolding run_polling
  run_polling_returns left cycle zero st stops h = absurd (omega arith)
  run_polling_returns zero cycle (suc fuel) st stops h =
      let refused : p.should_continue cycle st.world ≡ false =
        subst (λ n. p.should_continue n st.world ≡ false) (omega arith) (stops st.world) in
      (st, rw (refused, run_polling) refl)
  run_polling_returns (suc left) cycle (suc fuel) st stops h =
      elim (Bool-cases (p.should_continue cycle st.world)) [
        | inr e ↦ (st, rw (e, run_polling) refl)
        | inl e ↦
            let later : (world : S) → p.should_continue (cycle + 1 + left) world ≡ false =
              λ world. subst (λ n. p.should_continue n world ≡ false) (omega arith) (stops world) in
            let (end, r) =
              run_polling_returns left (cycle + 1) fuel (poll_cycle fl p st) later (omega arith) in
            (end, rw (e, run_polling) r)
      ]

  -- Where every cycle that runs lowers a number, the loop returns, with more fuel than that number.
  pub run_polling_stops :
      (measure : S → ℕ) (fuel cycle : ℕ) (st : PollState fl S)
      → ((n : ℕ) (x : PollState fl S)
          → p.should_continue n x.world ≡ true
          → measure (poll_cycle fl p x).world < measure x.world)
      → measure st.world < fuel
      → (end : PollState fl S) × (run_polling fl p fuel cycle st ≡ some end)
  unfolding run_polling
  run_polling_stops measure zero cycle st lowers h = absurd (omega arith)
  run_polling_stops measure (suc fuel) cycle st lowers h =
      elim (Bool-cases (p.should_continue cycle st.world)) [
        | inr e ↦ (st, rw (e, run_polling) refl)
        | inl e ↦
            let less = lowers cycle st e in
            let (end, r) =
              run_polling_stops measure fuel (cycle + 1) (poll_cycle fl p st) lowers
                (omega arith) in
            (end, rw (e, run_polling) r)
      ]

module _ (fl : Floats) {S : Type 0} (p q : Polling S) where
  -- Two sets of callbacks that do the same, and differ in what they return.
  pub record SameEffects : Type 0 where
    pub now : (s : S) → p.now s ≡ q.now s
    pub sleep : (d : ℕ) (s : S) → p.sleep d s ≡ q.sleep d s
    pub heartbeat : (s : S) → (p.on_heartbeat s).0 ≡ (q.on_heartbeat s).0
    pub bundle_sync : (s : S) → (p.on_bundle_sync s).0 ≡ (q.on_bundle_sync s).0
    pub should_continue : (n : ℕ) (s : S) → p.should_continue n s ≡ q.should_continue n s

  module _ (same : SameEffects) where
    run_actions_same :
        (actions : List PollAction) (s : S)
        → run_actions fl p actions s ≡ run_actions fl q actions s
    unfolding run_actions
    run_actions_same [] s = refl
    run_actions_same (heartbeat_action ∷ actions) s =
        rw (same.heartbeat s) (run_actions_same actions (q.on_heartbeat s).0)
    run_actions_same (bundle_sync ∷ actions) s =
        rw (same.bundle_sync s) (run_actions_same actions (q.on_bundle_sync s).0)

    wait_same :
        (scheduler : Scheduler fl) (s : S)
        → wait_for_due fl p scheduler s ≡ wait_for_due fl q scheduler s
    unfolding wait_for_due
    wait_same scheduler s = rw (same.now s, same.sleep (next_due fl scheduler - q.now s) s) refl

    cycle_same : (st : PollState fl S) → poll_cycle fl p st ≡ poll_cycle fl q st
    unfolding poll_cycle
    cycle_same st =
        let w = wait_for_due fl q st.scheduler st.world in
        let after = take_due fl (q.now w) st.scheduler st.rng in
        rw (wait_same st.scheduler st.world, same.now w, run_actions_same after.0 w) refl

    -- What a callback returns changes nothing: an error ends neither the loop nor the cadence.
    pub run_polling_ignores_errors :
        (fuel cycle : ℕ) (st : PollState fl S)
        → run_polling fl p fuel cycle st ≡ run_polling fl q fuel cycle st
    unfolding run_polling
    run_polling_ignores_errors zero cycle st = refl
    run_polling_ignores_errors (suc fuel) cycle st =
        elim (Bool-cases (q.should_continue cycle st.world)) [
          | inl e ↦
              let again : p.should_continue cycle st.world ≡ true =
                same.should_continue cycle st.world ∙ e in
              rw (again, e, run_polling)
                (ap (run_polling fl p fuel (cycle + 1)) (cycle_same st)
                  ∙ run_polling_ignores_errors fuel (cycle + 1) (poll_cycle fl q st))
          | inr e ↦
              let refused : p.should_continue cycle st.world ≡ false =
                same.should_continue cycle st.world ∙ e in
              rw (refused, e, run_polling) refl
        ]
