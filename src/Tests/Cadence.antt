-- ===== src/Tests/Cadence.antt =====
-- Instances of the theorems on the scheduler, the poll loop and the sleeper. Fixed-point numbers
-- with nine decimals stand for the floats.
use mayfly_agent.Text.Integer.{ℤ, pos, negsuc}
use mayfly_agent.Service.Polling.Cycle.{poll_cycle_lem, IsCycle}
use mayfly_agent.Service.Polling.{poll_cycle, PollState, Polling}
use mayfly_agent.Service.Scheduler.Due.{take_due_sound, Rescheduled, JitterFits}
use mayfly_agent.Service.Shutdown.Chunks.{sleep_chunks_lem, IsSleep}
use mayfly_agent.Errors.{heartbeat_transport}
use mayfly_agent.Service.Scheduler.{
  heartbeat_action, JitteredInterval, take_due, Scheduler, RandomSource,
}
use mayfly_agent.Result.{err, ok}
use mayfly_agent.Float.{Floats}
use mayfly_agent.Service.Shutdown.{sleep_chunks}
use mayfly_agent.Prelude.{
  ℕ, zero, suc, ◌+◌, ◌*◌, ◌/◌, ◌≡◌, true, none, some, List, [], ◌∷◌, arith, ltb, leb, ◌==◌,
}

abbrev billion : ℕ
billion = 1_000_000_000

abbrev pub power : ℕ → ℕ → ℕ
power x zero = billion
power x (suc n) = power x n * x / billion

abbrev pub power_int : ℕ → ℤ → ℕ
power_int x (pos n) = power x n
power_int x (negsuc n) = billion * billion / power x (n + 1)

abbrev pub toy_floats : Floats
toy_floats = record {
  F = ℕ;
  zero_f = 0;
  one_f = billion;
  is_finite = λ x. true;
  le_f = leb;
  of_u64 = λ n. n * billion;
  mul = λ a b. a * b / billion;
  div = λ a b. a * billion / b;
  add = λ a b. a + b;
  powi = power_int;
  as_secs_f64 = λ d. d;
  from_secs_f64 = λ x. x;
  parse_f64 = λ s. none;
}

abbrev pub draws : RandomSource
draws = record { draws = λ n. 500_000 * n; used = 0 }

-- Every minute and every five minutes, with a jitter of a tenth.
abbrev minutely : JitteredInterval toy_floats
minutely = record { base = 60_000_000_000; ratio = 100_000_000 }

abbrev five_minutely : JitteredInterval toy_floats
five_minutely = record { base = 300_000_000_000; ratio = 100_000_000 }

minutely-fits : JitterFits toy_floats minutely
minutely-fits draw = omega arith

five_minutely-fits : JitterFits toy_floats five_minutely
five_minutely-fits draw = omega arith

abbrev plan : Scheduler toy_floats
plan = record { heartbeat = minutely; sync = five_minutely; heartbeat_due = 1000; sync_due = 2000 }

-- At 1500 the heartbeat is due, and it is due again after a minute and its jitter.
take_due_sound_example :
    let after = (take_due toy_floats 1500 plan draws).1.0 in
    ((take_due toy_floats 1500 plan draws).0 ≡ heartbeat_action ∷ [])
    × Rescheduled toy_floats minutely 1500 1000 after.heartbeat_due
    × Rescheduled toy_floats five_minutely 1500 2000 after.sync_due
take_due_sound_example = take_due_sound toy_floats 1500 plan draws minutely-fits five_minutely-fits

-- The state of the outside is its clock; the heartbeat fails.
abbrev callbacks : Polling ℕ
callbacks = record {
  now = λ t. t;
  sleep = λ d t. t + d;
  on_heartbeat = λ t. (t + 5, err heartbeat_transport);
  on_bundle_sync = λ t. (t + 7, ok tt);
  should_continue = λ n t. ltb n 3;
}

abbrev at_start : PollState toy_floats ℕ
at_start = record { scheduler = plan; rng = draws; world = 0 }

poll_cycle_lem_example :
    IsCycle toy_floats callbacks at_start (poll_cycle toy_floats callbacks at_start)
poll_cycle_lem_example =
    poll_cycle_lem toy_floats callbacks at_start minutely-fits five_minutely-fits

-- A sleep of 10 in steps of 4, which the third check of the flag cuts short.
sleep_chunks_lem_example :
    (chunks : List ℕ) × (sleep_chunks 11 (λ k. k == 2) 4 0 10 ≡ some chunks)
    × IsSleep (λ k. k == 2) 4 0 10 chunks
sleep_chunks_lem_example = sleep_chunks_lem 11 (λ k. k == 2) 4 0 10 (omega arith) (omega arith)
