-- ===== src/Service/Backoff.antt =====
-- src/service/backoff.rs: retry with exponential back-off. What the operation answers to each
-- attempt and what each check of `should_continue` says are parameters.
pub mod Attempts
use mayfly_agent.Text.Integer.{ℤ, pos, negsuc}
use mayfly_agent.Prelude.{
  ℕ, zero, suc, ◌+◌, ◌-◌, ◌*◌, ◌/◌, ◌%◌, ◌^◌, ◌≤◌, ◌<◌, String, ◌≡◌, refl, sym, ap, ◌∙◌, ◌≢◌, ◌↔◌,
  ◌⊎◌, inl, inr, Bool, true, false, not, ◌&&◌, ◌||◌, Option, none, some, List, [], ◌∷◌, ◌++◌, map,
  arith, ltb, leb, ◌==◌, if◌then◌else◌, ltb→lt, lt→ltb, ==_iff, ==_self, Bool-cases, Option-cases,
  &&-eq-true, &&-true, length, is_empty, head?, take, drop, any, all, length-append, all-append,
  any-append, length-map, All,
}
use mayfly_agent.Result.{ok, err, Result}
use mayfly_agent.Errors.{enrollment_transport, Error}
use mayfly_agent.Float.{Floats, min_f, max_f}
use mayfly_agent.Service.Scheduler.{RandomSource, next_u64}

pub record BackoffPolicy (fl : Floats) : Type 0 where
  pub initial : ℕ
  pub max : ℕ
  pub multiplier : fl.F
  pub jitter_ratio : fl.F

-- `BackoffPolicy::default`; a fifth is the float nearest to 0.2.
unfoldable pub default_policy : (fl : Floats) → BackoffPolicy fl
default_policy fl = record {
  initial = 2_000_000_000;
  max = 60_000_000_000;
  multiplier = fl.of_u64 2;
  jitter_ratio = fl.div fl.one_f (fl.of_u64 5);
}

abbrev pub u32_max : ℕ
u32_max = 4_294_967_295

-- `saturating_add(1)` on a u32.
abbrev pub next_attempt : ℕ → ℕ
next_attempt attempt = if ltb attempt u32_max then attempt + 1 else u32_max

-- `as i32` of a u32: from 2^31 on it is negative.
abbrev pub as_i32 : ℕ → ℤ
as_i32 n = if ltb n (2 ^ 31) then pos n else negsuc (2 ^ 32 - 1 - n)

-- What a call of `retry_with_backoff` returned, after how many attempts and which sleeps.
pub record Retried (T : Type 0) : Type 0 where
  pub outcome : Result Error T
  pub attempts : ℕ
  pub delays : List ℕ

abbrev pub last_error : Option Error → Error
last_error none = enrollment_transport
last_error (some e) = e

module _ (fl : Floats) (policy : BackoffPolicy fl) where
  unfoldable pub delay : ℕ → RandomSource → ℕ × RandomSource
  unfolding next_u64
  delay attempt rng =
      let factor = fl.powi policy.multiplier (as_i32 (attempt - 1)) in
      let base = fl.mul (fl.as_secs_f64 policy.initial) factor in
      let capped = max_f fl (min_f fl base (fl.as_secs_f64 policy.max)) fl.zero_f in
      let drawn = next_u64 rng in
      let fraction = fl.div (fl.of_u64 (drawn.0 % 1_000_000)) (fl.of_u64 1_000_000) in
      if fl.le_f policy.jitter_ratio fl.zero_f
      then (fl.from_secs_f64 (fl.add capped fl.zero_f), rng)
      else (
        fl.from_secs_f64 (fl.add capped (fl.mul (fl.mul capped policy.jitter_ratio) fraction)),
        drawn.1,
      )

  module _ {T : Type 0} (op : ℕ → Result Error T) (should_continue : ℕ → Bool) where
    abbrev pub after_sleep : ℕ → Option (Retried T) → Option (Retried T)
    after_sleep d none = none
    after_sleep d (some r) = some (record r { delays = d ∷ r.delays })

    -- The loop, from check number `check` on; `none` means that the fuel ran out.
    unfoldable pub retry_from : ℕ → ℕ → ℕ → Option Error → RandomSource → Option (Retried T)
    retry_from zero check attempt last rng = none
    retry_from (suc fuel) check attempt last rng = elim (should_continue check) [
      | false ↦ some (record { outcome = err (last_error last); attempts = attempt; delays = [] })
      | true ↦ elim (op (next_attempt attempt)) [
        | ok value ↦
            some (record { outcome = ok value; attempts = next_attempt attempt; delays = [] })
        | err e ↦ elim (should_continue (check + 1)) [
          | false ↦ some (record { outcome = err e; attempts = next_attempt attempt; delays = [] })
          | true ↦
              let slept = delay (next_attempt attempt) rng in
              after_sleep slept.0
                (retry_from fuel (check + 2) (next_attempt attempt) (some e) slept.1)
        ]
      ]
    ]

    unfoldable pub retry_with_backoff : ℕ → RandomSource → Option (Retried T)
    unfolding retry_from
    retry_with_backoff fuel rng = retry_from fuel 0 0 none rng
