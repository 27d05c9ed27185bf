-- ===== src/Service/Shutdown/Chunks.antt =====
-- How long the sleeper sleeps.
use mathlib.Core.Path.{subst}
use mayfly_agent.Prelude.{
  ℕ, zero, suc, ◌+◌, ◌-◌, ◌≤◌, ◌<◌, ◌≡◌, refl, ap, inl, inr, Bool, true, false, none, some, List,
  [], ◌∷◌, arith, ◌==◌, ==_iff, Bool-cases, Option-cases, length, All,
}
use mayfly_agent.Service.Shutdown.{sleep_chunks, min_nat}

abbrev pub total : List ℕ → ℕ
total [] = 0
total (c ∷ cs) = c + total cs

-- The sleep of `remaining` from check number `i` on.
pub record IsSleep (requested : ℕ → Bool) (step i remaining : ℕ) (chunks : List ℕ) : Type 0 where
  pub bounded : total chunks ≤ remaining
  pub steps : All (λ c. c ≤ step) chunks
  pub complete : ((k : ℕ) → requested k ≡ false) → total chunks ≡ remaining
  pub prompt : (k : ℕ) → i ≤ k → requested k ≡ true → i + length chunks ≤ k

later_check :
    (requested : ℕ → Bool) (i k : ℕ) → i ≤ k → requested i ≡ false → requested k ≡ true → i + 1 ≤ k
later_check requested i k l unset set = elim (Bool-cases (k == i)) [
  | inl e ↦ let same : k ≡ i = (==_iff k i).0 e in absurd (ground (arith, ap requested same))
  | inr e ↦ ground arith
]

-- The sleeper returns, with one more unit of fuel than nanoseconds; it sleeps in chunks of at most
-- one step, never longer in all than it was asked to, exactly as long when the flag stays unset,
-- and once the flag is set at a check it sleeps no further chunk.
pub sleep_chunks_lem :
    (fuel : ℕ) (requested : ℕ → Bool) (step i remaining : ℕ)
    → 0 < step
    → remaining < fuel
    → (chunks : List ℕ) × (sleep_chunks fuel requested step i remaining ≡ some chunks)
      × IsSleep requested step i remaining chunks
unfolding sleep_chunks
sleep_chunks_lem zero requested step i remaining p h = absurd (omega arith)
sleep_chunks_lem (suc fuel) requested step i remaining p h = elim (Bool-cases (remaining == 0)) [
  | inl e ↦ (
    [],
    rw (e, sleep_chunks) refl,
    record {
      bounded = omega arith;
      steps = tt;
      complete = λ f. ground arith;
      prompt = λ k l r. ground arith;
    },
  )
  | inr e ↦ elim (Bool-cases (requested i)) [
    | inl r ↦ (
      [],
      rw (e, r, sleep_chunks) refl,
      record {
        bounded = omega arith;
        steps = tt;
        complete = λ f. absurd (ground (arith, f i));
        prompt = λ k l r. omega arith;
      },
    )
    | inr r ↦
        let chunk = min_nat remaining step in
        let size : (chunk ≤ remaining) × (chunk ≤ step) × (0 < chunk) = ground arith in
        let (chunks, returned, s) =
          sleep_chunks_lem fuel requested step (i + 1) (remaining - chunk) p (omega arith) in
        (
          chunk ∷ chunks,
          rw (e, r, returned, sleep_chunks) refl,
          record {
            bounded = ground (arith, s.bounded);
            steps = (size.1, s.steps);
            complete = λ f. ground (arith, s.complete f);
            prompt = λ k l t. omega (arith, s.prompt k (later_check requested i k l r t) t);
          },
        )
  ]
]

-- A sleep that starts takes time.
pub sleep_chunks-positive :
    (fuel : ℕ) (requested : ℕ → Bool) (step i remaining : ℕ) (chunks : List ℕ)
    → sleep_chunks fuel requested step i remaining ≡ some chunks
    → 0 < step
    → 0 < remaining
    → requested i ≡ false
    → 0 < total chunks
unfolding sleep_chunks
sleep_chunks-positive zero requested step i remaining chunks h p r f = absurd (cc)
sleep_chunks-positive (suc fuel) requested step i remaining chunks h p r f =
    let more : (remaining == 0) ≡ false = ground arith in
    elim (Option-cases
      (sleep_chunks fuel requested step (i + 1) (remaining - min_nat remaining step))) [
        | inl e ↦ absurd (let bad : none ≡ some chunks = rw (more, f, e, sleep_chunks) at h in cc)
        | inr (rest, e) ↦
            let is : some (min_nat remaining step ∷ rest) ≡ some chunks =
              rw (more, f, e, sleep_chunks) at h in
            let same : min_nat remaining step ∷ rest ≡ chunks = cc in
            subst (λ cs. 0 < total cs) same (ground arith)
      ]
