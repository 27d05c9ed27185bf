-- ===== src/Tests/Retries.antt =====
-- Instances of the theorems on the retries.
use mayfly_agent.Service.Backoff.{retry_with_backoff, Retried, BackoffPolicy}
use mayfly_agent.Service.Backoff.Attempts.{retry_succeeds, retry_returns}
use mayfly_agent.Tests.Cadence.{draws, toy_floats}
use mayfly_agent.Result.{ok, err, Result}
use mayfly_agent.Errors.{enrollment_transport, Error}
use mayfly_agent.Prelude.{ℕ, ◌≡◌, refl, true, some, arith, ltb, if◌then◌else◌, length}

abbrev policy : BackoffPolicy toy_floats
policy = record {
  initial = 1_000_000_000;
  max = 60_000_000_000;
  multiplier = 2_000_000_000;
  jitter_ratio = 100_000_000;
}

-- Two attempts fail, the third succeeds.
abbrev third_time : ℕ → Result Error ℕ
third_time n = if ltb n 3 then err enrollment_transport else ok n

retry_succeeds_example :
    (r : Retried ℕ) × (retry_with_backoff toy_floats policy third_time (λ k. true) 3 draws ≡ some r)
    × (r.outcome ≡ ok 3)
    × (r.attempts ≡ 3)
    × (length r.delays ≡ 2)
retry_succeeds_example =
    retry_succeeds toy_floats policy third_time (λ k. true) 2 3 draws 3 (λ k. refl)
      (λ k a b. (enrollment_transport, ground arith)) refl (omega arith) (omega arith)

-- Stopped at the third check: after one failed attempt and its sleep.
retry_returns_example :
    (r : Retried ℕ) × (retry_with_backoff toy_floats policy third_time (λ k. ltb k 2) 3 draws
      ≡ some r)
    × ((value : ℕ) → r.outcome ≡ ok value → third_time r.attempts ≡ ok value)
retry_returns_example =
    retry_returns toy_floats policy third_time (λ k. ltb k 2) 2 3 draws refl (omega arith)
