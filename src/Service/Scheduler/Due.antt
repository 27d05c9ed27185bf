-- ===== src/Service/Scheduler/Due.antt =====
-- What `take_due` returns, and when the next action is due.
use mayfly_agent.Service.Scheduler.{
  next_u64, bundle_sync, take_heartbeat, next_delay, heartbeat_action, jitter, PollAction,
  take_sync, JitteredInterval, RandomSource, Scheduler, take_due, next_due,
}
use mayfly_agent.Prelude.{
  ℕ, ◌+◌, ◌*◌, ◌≤◌, ◌<◌, ◌≡◌, refl, ◌⊎◌, inl, inr, Bool, true, false, List, [], ◌∷◌, ◌++◌, arith,
  leb, if◌then◌else◌, Bool-cases,
}
use mayfly_agent.Float.{Floats}
use mayfly_agent.Crates.{Instant}

-- In floating point, a fraction of a ratio of at most 1 of a duration is at most the duration. It
-- is what `JitteredInterval` says of its delays.
abbrev pub JitterFits : (fl : Floats) → JitteredInterval fl → Type 0
JitterFits fl interval = (draw : ℕ) → jitter fl interval draw ≤ interval.base

module _ (fl : Floats) where
  next_delay-le :
      (interval : JitteredInterval fl) (rng : RandomSource)
      → JitterFits fl interval
      → (next_delay fl interval rng).0 ≤ 2 * interval.base
  unfolding next_delay next_u64
  next_delay-le interval rng fits = ground (arith, fits (rng.draws rng.used))

  next_delay-ge :
      (interval : JitteredInterval fl) (rng : RandomSource)
      → interval.base ≤ (next_delay fl interval rng).0
  unfolding next_delay
  next_delay-ge interval rng = ground arith

  -- One cadence: its action was due and is due again later, or it was not due and keeps its time.
  abbrev pub Rescheduled : JitteredInterval fl → Instant → Instant → Instant → Type 0
  Rescheduled interval now before after =
      ((before ≤ now) × (now + interval.base ≤ after) × (after ≤ now + 2 * interval.base))
      ⊎ ((now < before) × (after ≡ before))

  abbrev pub expected_actions : Instant → Scheduler fl → List PollAction
  expected_actions now s =
      if leb s.heartbeat_due now
      then (if leb s.sync_due now
          then heartbeat_action ∷ bundle_sync ∷ []
          else heartbeat_action ∷ [])
      else (if leb s.sync_due now then bundle_sync ∷ [] else [])

  take_heartbeat_lem :
      (now : Instant) (s : Scheduler fl) (rng : RandomSource)
      → JitterFits fl s.heartbeat
      → let after = take_heartbeat fl now s rng in
        (after.0 ≡ (if leb s.heartbeat_due now then heartbeat_action ∷ [] else []))
        × Rescheduled s.heartbeat now s.heartbeat_due after.1.0.heartbeat_due
        × (after.1.0.sync ≡ s.sync)
        × (after.1.0.sync_due ≡ s.sync_due)
  unfolding take_heartbeat
  take_heartbeat_lem now s rng fits =
      let low = next_delay-ge s.heartbeat rng in
      let high = next_delay-le s.heartbeat rng fits in
      elim (Bool-cases (leb s.heartbeat_due now)) [
        | inl e ↦ rw e (refl, inl (ground arith, omega arith, omega arith), refl, refl)
        | inr e ↦ rw e (refl, inr (ground arith, refl), refl, refl)
      ]

  take_sync_lem :
      (now : Instant) (s : Scheduler fl) (rng : RandomSource)
      → JitterFits fl s.sync
      → let after = take_sync fl now s rng in
        (after.0 ≡ (if leb s.sync_due now then bundle_sync ∷ [] else []))
        × Rescheduled s.sync now s.sync_due after.1.0.sync_due
        × (after.1.0.heartbeat_due ≡ s.heartbeat_due)
  unfolding take_sync
  take_sync_lem now s rng fits =
      let low = next_delay-ge s.sync rng in
      let high = next_delay-le s.sync rng fits in
      elim (Bool-cases (leb s.sync_due now)) [
        | inl e ↦ rw e (refl, inl (ground arith, omega arith, omega arith), refl)
        | inr e ↦ rw e (refl, inr (ground arith, refl), refl)
      ]

  joined_actions :
      (a b : Bool)
      → (if a then heartbeat_action ∷ [] else []) ++ (if b then bundle_sync ∷ [] else []) ≡ (
          if a
          then (if b then heartbeat_action ∷ bundle_sync ∷ [] else heartbeat_action ∷ [])
          else (if b then bundle_sync ∷ [] else []))
  joined_actions true true = refl
  joined_actions true false = refl
  joined_actions false true = refl
  joined_actions false false = refl

  -- `take_due` returns exactly the actions that are due, the heartbeat first; an action that was
  -- due is due again one to two intervals after `now`, and the other one keeps its time. It is
  -- assumed that the jitter of an interval is at most the interval.
  pub take_due_sound :
      (now : Instant) (s : Scheduler fl) (rng : RandomSource)
      → JitterFits fl s.heartbeat
      → JitterFits fl s.sync
      → let after = (take_due fl now s rng).1.0 in
        ((take_due fl now s rng).0 ≡ expected_actions now s)
        × Rescheduled s.heartbeat now s.heartbeat_due after.heartbeat_due
        × Rescheduled s.sync now s.sync_due after.sync_due
  unfolding take_due
  take_due_sound now s rng fh fs =
      let first = take_heartbeat fl now s rng in
      let (pushed, again, same, kept) = take_heartbeat_lem now s rng fh in
      let (pushed2, again2, kept2) = take_sync_lem now first.1.0 first.1.1 (rw same fs) in
      (
        rw (pushed, pushed2, kept) (joined_actions (leb s.heartbeat_due now) (leb s.sync_due now)),
        rw kept2 again,
        rw (same, kept) at again2,
      )

  -- With intervals that are not empty, nothing is due right after `take_due`: the poll loop waits.
  pub take_due_waits :
      (now : Instant) (s : Scheduler fl) (rng : RandomSource)
      → JitterFits fl s.heartbeat
      → JitterFits fl s.sync
      → 0 < s.heartbeat.base
      → 0 < s.sync.base
      → now < next_due fl (take_due fl now s rng).1.0
  unfolding next_due
  take_due_waits now s rng fh fs ph ps =
      let (_, h, k) = take_due_sound now s rng fh fs in ground arith
