-- ===== src/Service/Polling.antt =====
-- src/service/scheduler.rs: `run_polling`. What the clock, the sleeper and the callbacks do is a
-- parameter, over a state of the outside that they read and change.
pub mod Runs
pub mod Cycle
pub mod Carries
use mayfly_agent.Service.Scheduler.{
  bundle_sync, heartbeat_action, Scheduler, RandomSource, PollAction, take_due, next_due,
}
use mayfly_agent.Errors.{Error}
use mayfly_agent.Result.{Result}
use mayfly_agent.Crates.{Instant}
use mayfly_agent.Prelude.{
  ℕ, zero, suc, ◌+◌, ◌-◌, Bool, true, false, Option, none, some, List, [], ◌∷◌, ltb, if◌then◌else◌,
}
use mayfly_agent.Float.{Floats}

pub record Polling (S : Type 0) : Type 0 where
  pub now : S → Instant
  pub sleep : ℕ → S → S
  pub on_heartbeat : S → S × Result Error (Unit {0})
  pub on_bundle_sync : S → S × Result Error (Unit {0})
  pub should_continue : ℕ → S → Bool

pub record PollState (fl : Floats) (S : Type 0) : Type 0 where
  pub scheduler : Scheduler fl
  pub rng : RandomSource
  pub world : S

module _ (fl : Floats) {S : Type 0} (p : Polling S) where
  abbrev pub run_action : PollAction → S → S × Result Error (Unit {0})
  run_action heartbeat_action s = p.on_heartbeat s
  run_action bundle_sync s = p.on_bundle_sync s

  -- The loop over the due actions: an error is logged and dropped.
  unfoldable pub run_actions : List PollAction → S → S
  run_actions [] s = s
  run_actions (action ∷ actions) s = run_actions actions (run_action action s).0

  -- The wait until the next action is due, if it lies ahead.
  unfoldable pub wait_for_due : Scheduler fl → S → S
  wait_for_due scheduler s =
      let due = next_due fl scheduler in if ltb (p.now s) due then p.sleep (due - p.now s) s else s

  -- The body of the loop.
  unfoldable pub poll_cycle : PollState fl S → PollState fl S
  unfolding wait_for_due
  poll_cycle st =
      let world = wait_for_due st.scheduler st.world in
      let (due, after) = take_due fl (p.now world) st.scheduler st.rng in
      record { scheduler = after.0; rng = after.1; world = run_actions due world }

  -- The loop, on fuel: `none` means that the fuel ran out.
  unfoldable pub run_polling : ℕ → ℕ → PollState fl S → Option (PollState fl S)
  run_polling zero cycle st = none
  run_polling (suc fuel) cycle st = elim (p.should_continue cycle st.world) [
    | true ↦ run_polling fuel (cycle + 1) (poll_cycle st)
    | false ↦ some st
  ]
