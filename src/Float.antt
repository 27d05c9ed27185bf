-- ===== src/Float.antt =====
-- The operations on `f64` and between `f64` and `Duration` that the agent uses, as a parameter: a
-- duration is a number of nanoseconds.
use mayfly_agent.Text.Integer.{ℤ}
use mayfly_agent.Prelude.{ℕ, Bool, Option, List, if◌then◌else◌}

pub record Floats : Type 1 where
  pub F : Type 0
  pub zero_f : F
  pub one_f : F
  pub is_finite : F → Bool
  pub le_f : F → F → Bool
  pub of_u64 : ℕ → F
  pub mul : F → F → F
  pub div : F → F → F
  pub add : F → F → F
  pub powi : F → ℤ → F
  -- `Duration::as_secs_f64` and `Duration::from_secs_f64`
  pub as_secs_f64 : ℕ → F
  pub from_secs_f64 : F → ℕ
  -- `str::parse::<f64>`
  pub parse_f64 : List ℕ → Option F

module _ (fl : Floats) where
  -- `f64::min`, `f64::max` and `f64::clamp` of numbers that are not NaN.
  abbrev pub min_f : fl.F → fl.F → fl.F
  min_f a b = if fl.le_f a b then a else b

  abbrev pub max_f : fl.F → fl.F → fl.F
  max_f a b = if fl.le_f a b then b else a

  abbrev pub clamp_unit : fl.F → fl.F
  clamp_unit a =
      if fl.le_f fl.zero_f a then (if fl.le_f a fl.one_f then a else fl.one_f) else fl.zero_f
