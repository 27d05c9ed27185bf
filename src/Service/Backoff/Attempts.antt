-- ===== src/Service/Backoff/Attempts.antt =====
-- When a retry ends, and with what.
use mayfly_agent.Result.{Result-cases, err, ok, Result}
use mathlib.Core.Path.{subst}
use mayfly_agent.Service.Backoff.{
  after_sleep, delay, next_attempt, BackoffPolicy, Retried, retry_from, retry_with_backoff, u32_max,
}
use mayfly_agent.Errors.{Error}
use mayfly_agent.Prelude.{
  ℕ, zero, suc, ◌+◌, ◌≤◌, ◌<◌, ◌≡◌, refl, ap, ◌∙◌, inl, inr, Bool, true, false, Option, none, some,
  arith, ◌==◌, ==_iff, Bool-cases, length,
}
use mayfly_agent.Float.{Floats}
use mayfly_agent.Service.Scheduler.{RandomSource}

module _ (fl : Floats) (policy : BackoffPolicy fl) {T : Type 0} (op : ℕ → Result Error T)
    (should_continue : ℕ → Bool) where
  Succeeds : ℕ → ℕ → T → Option (Retried T) → Type 0
  Succeeds n attempt value none = ⊥
  Succeeds n attempt value (some r) =
      (r.outcome ≡ ok value) × (r.attempts ≡ attempt) × (length r.delays ≡ n)

  after_sleep-Succeeds :
      (n attempt d : ℕ) (value : T) (o : Option (Retried T))
      → Succeeds n attempt value o
      → Succeeds (suc n) attempt value (after_sleep fl policy op should_continue d o)
  unfolding Succeeds
  after_sleep-Succeeds n attempt d value none h = h
  after_sleep-Succeeds n attempt d value (some r) h = (h.0, h.1, ap suc h.2)

  Succeeds-cast :
      (n a b : ℕ) (value : T) (o : Option (Retried T))
      → a ≡ b
      → Succeeds n a value o
      → Succeeds n b value o
  unfolding Succeeds
  Succeeds-cast n a b value none e h = h
  Succeeds-cast n a b value (some r) e h = (h.0, h.1 ∙ e, h.2)

  failed_attempt :
      (n final fuel check attempt : ℕ) (last : Option Error) (rng : RandomSource) (value : T)
      (e : Error)
      → should_continue check ≡ true
      → op (next_attempt attempt) ≡ err e
      → should_continue (check + 1) ≡ true
      → Succeeds n final value (
          retry_from fl policy op should_continue fuel
            (check + 2)
            (next_attempt attempt)
            (some e)
            (delay fl policy (next_attempt attempt) rng).1)
      → Succeeds
          (suc n)
          final
          value
          (retry_from fl policy op should_continue (suc fuel) check attempt last rng)
  unfolding retry_from
  failed_attempt n final fuel check attempt last rng value e c o d s =
      rw (c, o, d, retry_from)
        (after_sleep-Succeeds n final (delay fl policy (next_attempt attempt) rng).0 value _ s)

  retry_from-Succeeds :
      (n fuel check attempt : ℕ) (last : Option Error) (rng : RandomSource) (value : T)
      → ((k : ℕ) → should_continue k ≡ true)
      → ((k : ℕ) → attempt < k → k ≤ attempt + n → (e : Error) × (op k ≡ err e))
      → op (attempt + n + 1) ≡ ok value
      → attempt + n < u32_max
      → n < fuel
      → Succeeds n
          (attempt + n + 1)
          value
          (retry_from fl policy op should_continue fuel check attempt last rng)
  unfolding Succeeds retry_from
  retry_from-Succeeds n zero check attempt last rng value go fails succeeds h l =
      absurd (omega arith)
  retry_from-Succeeds zero (suc fuel) check attempt last rng value go fails succeeds h l =
      let below : next_attempt attempt ≡ attempt + zero + 1 = ground arith in
      let done : op (next_attempt attempt) ≡ ok value = ap op below ∙ succeeds in
      rw (go check, done, retry_from) (refl, below, refl)
  retry_from-Succeeds (suc n) (suc fuel) check attempt last rng value go fails succeeds h l =
      let next : next_attempt attempt ≡ attempt + 1 = ground arith in
      let (e, failed) = fails (attempt + 1) (omega arith) (omega arith) in
      let refused : op (next_attempt attempt) ≡ err e = ap op next ∙ failed in
      let slept = delay fl policy (next_attempt attempt) rng in
      let ih =
        retry_from-Succeeds n fuel (check + 2) (next_attempt attempt) (some e) slept.1 value go
          (λ k a b. fails k (omega arith) (omega arith))
          (subst (λ k. op k ≡ ok value) (omega arith) succeeds) (omega arith) (omega arith) in
      let count : next_attempt attempt + n + 1 ≡ attempt + suc n + 1 = omega arith in
      failed_attempt n (attempt + suc n + 1) fuel check attempt last rng value e (go check) refused
        (go (check + 1)) (Succeeds-cast n _ _ value _ count ih)

  -- Where the operation fails on the first `n` attempts and succeeds on the next one, and nothing
  -- cancels the loop, it returns that value after `n + 1` attempts and `n` sleeps, for `n` below
  -- 2^32 - 1 and given more than `n` units of fuel.
  pub retry_succeeds :
      (n fuel : ℕ) (rng : RandomSource) (value : T)
      → ((k : ℕ) → should_continue k ≡ true)
      → ((k : ℕ) → 0 < k → k ≤ n → (e : Error) × (op k ≡ err e))
      → op (n + 1) ≡ ok value
      → n < u32_max
      → n < fuel
      → (r : Retried T) × (retry_with_backoff fl policy op should_continue fuel rng ≡ some r)
        × (r.outcome ≡ ok value)
        × (r.attempts ≡ n + 1)
        × (length r.delays ≡ n)
  unfolding retry_with_backoff Succeeds
  retry_succeeds n fuel rng value go fails succeeds h l =
      read (retry_from fl policy op should_continue fuel 0 0 none rng) (
        retry_from-Succeeds n fuel 0 0 none rng value go (λ k a b. fails k a (omega arith))
          (subst (λ k. op k ≡ ok value) (omega arith) succeeds) (omega arith) l)
    where
      read :
          (o : Option (Retried T))
          → Succeeds n (0 + n + 1) value o
          → (r : Retried T) × (o ≡ some r)
            × (r.outcome ≡ ok value)
            × (r.attempts ≡ n + 1)
            × (length r.delays ≡ n)
      read none s = absurd s
      read (some r) s = (r, refl, s.0, omega arith, s.2)

  -- The loop returned, and a value that it returned is the answer to its last attempt.
  Answers : Option (Retried T) → Type 0
  Answers none = ⊥
  Answers (some r) = (value : T) → r.outcome ≡ ok value → op r.attempts ≡ ok value

  after_sleep-Answers :
      (d : ℕ) (o : Option (Retried T))
      → Answers o
      → Answers (after_sleep fl policy op should_continue d o)
  unfolding Answers
  after_sleep-Answers d none h = h
  after_sleep-Answers d (some r) h = h

  passed_checks :
      (k check : ℕ)
      → should_continue k ≡ false
      → should_continue check ≡ true
      → should_continue (check + 1) ≡ true
      → check ≤ k
      → check + 2 ≤ k
  passed_checks k check stop e c a = elim (Bool-cases (k == check)) [
    | inl same ↦ absurd (ground (arith, ap should_continue ((==_iff k check).0 same)))
    | inr differ ↦ elim (Bool-cases (k == check + 1)) [
      | inl same ↦ absurd (ground (arith, ap should_continue ((==_iff k (check + 1)).0 same)))
      | inr differ2 ↦ ground arith
    ]
  ]

  retry_from-Answers :
      (k fuel check attempt : ℕ) (last : Option Error) (rng : RandomSource)
      → should_continue k ≡ false
      → check ≤ k
      → k < check + fuel
      → Answers (retry_from fl policy op should_continue fuel check attempt last rng)
  unfolding Answers retry_from
  retry_from-Answers k zero check attempt last rng stop a b = absurd (omega arith)
  retry_from-Answers k (suc fuel) check attempt last rng stop a b =
      elim (Bool-cases (should_continue check)) [
        | inr e ↦ rw (e, retry_from) (λ value h. absurd (cc))
        | inl e ↦ elim (Result-cases (op (next_attempt attempt))) [
          | inl (answer, o) ↦ rw (e, o, retry_from) (λ value h. o ∙ h)
          | inr (failure, o) ↦ elim (Bool-cases (should_continue (check + 1))) [
            | inr c ↦ rw (e, o, c, retry_from) (λ value h. absurd (cc))
            | inl c ↦
                let later : check + 2 ≤ k = passed_checks k check stop e c a in
                rw (e, o, c, retry_from)
                  (after_sleep-Answers (delay fl policy (next_attempt attempt) rng).0 _ (
                    retry_from-Answers k fuel (check + 2) (next_attempt attempt) (some failure)
                      (delay fl policy (next_attempt attempt) rng).1 stop later (omega arith)))
          ]
        ]
      ]

  -- Once a check of `should_continue` says no, the loop has returned: with enough fuel to reach
  -- that check it does, and a value that it returns is what the last attempt answered.
  pub retry_returns :
      (k fuel : ℕ) (rng : RandomSource)
      → should_continue k ≡ false
      → k < fuel
      → (r : Retried T) × (retry_with_backoff fl policy op should_continue fuel rng ≡ some r)
        × ((value : T) → r.outcome ≡ ok value → op r.attempts ≡ ok value)
  unfolding retry_with_backoff Answers
  retry_returns k fuel rng stop l =
      read (retry_from fl policy op should_continue fuel 0 0 none rng)
        (retry_from-Answers k fuel 0 0 none rng stop (omega arith) (omega arith))
    where
      read :
          (o : Option (Retried T))
          → Answers o
          → (r : Retried T) × (o ≡ some r)
            × ((value : T) → r.outcome ≡ ok value → op r.attempts ≡ ok value)
      read none s = absurd s
      read (some r) s = (r, refl, s)
