-- ===== src/Service/Scheduler.antt =====
-- src/service/scheduler.rs: jittered intervals and the scheduler. Random numbers are a stream, of
-- which a position is used up.
pub mod Due
use mayfly_agent.Prelude.{ℕ, ◌+◌, ◌%◌, List, [], ◌∷◌, ◌++◌, leb, if◌then◌else◌}
use mayfly_agent.Float.{Floats, clamp_unit}
use mayfly_agent.Crates.{Instant}

abbrev pub jitter_resolution : ℕ
jitter_resolution = 1_000_000

-- `RandomSource`: the numbers it yields, and how many have been drawn.
pub record RandomSource : Type 0 where
  pub draws : ℕ → ℕ
  pub used : ℕ

unfoldable pub next_u64 : RandomSource → ℕ × RandomSource
next_u64 rng = (rng.draws rng.used, record rng { used = rng.used + 1 })

pub record JitteredInterval (fl : Floats) : Type 0 where
  pub base : ℕ
  pub ratio : fl.F

-- A poll action that has come due.
pub data PollAction : Type 0 where
  heartbeat_action bundle_sync : PollAction

module _ (fl : Floats) where
  unfoldable pub new_interval : ℕ → fl.F → JitteredInterval fl
  new_interval base ratio = record {
    base = base;
    ratio = if fl.is_finite ratio then clamp_unit fl ratio else fl.zero_f;
  }

  abbrev pub jitter : JitteredInterval fl → ℕ → ℕ
  jitter interval draw = fl.from_secs_f64 (
      fl.mul (fl.mul (fl.as_secs_f64 interval.base) interval.ratio)
        (fl.div (fl.of_u64 (draw % jitter_resolution)) (fl.of_u64 jitter_resolution)))

  unfoldable pub next_delay : JitteredInterval fl → RandomSource → ℕ × RandomSource
  unfolding next_u64
  next_delay interval rng =
      let drawn = next_u64 rng in
      if fl.le_f interval.ratio fl.zero_f
      then (interval.base, rng)
      else (interval.base + jitter interval drawn.0, drawn.1)

  pub record Scheduler : Type 0 where
    pub heartbeat : JitteredInterval fl
    pub sync : JitteredInterval fl
    pub heartbeat_due : Instant
    pub sync_due : Instant

  unfoldable pub new_scheduler :
      Instant → JitteredInterval fl → JitteredInterval fl → RandomSource → Scheduler × RandomSource
  new_scheduler now heartbeat sync rng =
      let (h, rng1) = next_delay heartbeat rng in
      let (s, rng2) = next_delay sync rng1 in
      (
        record { heartbeat = heartbeat; sync = sync; heartbeat_due = now + h; sync_due = now + s },
        rng2,
      )

  unfoldable pub next_due : Scheduler → Instant
  next_due s = if leb s.heartbeat_due s.sync_due then s.heartbeat_due else s.sync_due

  -- The two halves of `take_due`: what is pushed, and the state after it.
  unfoldable pub take_heartbeat :
      Instant → Scheduler → RandomSource → List PollAction × (Scheduler × RandomSource)
  take_heartbeat now s rng =
      let drawn = next_delay s.heartbeat rng in
      if leb s.heartbeat_due now
      then (heartbeat_action ∷ [], (record s { heartbeat_due = now + drawn.0 }, drawn.1))
      else ([], (s, rng))

  unfoldable pub take_sync :
      Instant → Scheduler → RandomSource → List PollAction × (Scheduler × RandomSource)
  take_sync now s rng =
      let drawn = next_delay s.sync rng in
      if leb s.sync_due now
      then (bundle_sync ∷ [], (record s { sync_due = now + drawn.0 }, drawn.1))
      else ([], (s, rng))

  unfoldable pub take_due :
      Instant → Scheduler → RandomSource → List PollAction × (Scheduler × RandomSource)
  take_due now s rng =
      let first = take_heartbeat now s rng in
      let second = take_sync now first.1.0 first.1.1 in (first.0 ++ second.0, second.1)
