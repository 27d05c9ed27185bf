-- ===== src/Service/Shutdown.antt =====
-- src/service/shutdown.rs: the flag and the interruptible sleeper, which takes what each check of the
-- flag reads.
pub mod Chunks
use mayfly_agent.Errors.{io, Error}
use mayfly_agent.Result.{err, ok, Result}
use mayfly_agent.Prelude.{
  ℕ, zero, suc, ◌+◌, ◌-◌, ◌*◌, Bool, true, false, ◌&&◌, ◌||◌, Option, none, some, List, [], ◌∷◌,
  ltb, leb, ◌==◌, if◌then◌else◌,
}

-- The flag that all clones share.
pub record Shutdown : Type 0 where
  pub flag : Bool

unfoldable pub new_shutdown : Shutdown
new_shutdown = record { flag = false }

unfoldable pub is_requested : Shutdown → Bool
is_requested shutdown = shutdown.flag

unfoldable pub request : Shutdown → Shutdown
request shutdown = record { flag = true }

-- Of whether the handlers of SIGTERM and SIGINT can be registered; a handler does `request`.
unfoldable pub install_signal_handlers : Bool → Bool → Result Error (Unit {0})
install_signal_handlers sigterm sigint = if sigterm && sigint then ok tt else err io

abbrev pub nanos_per_milli : ℕ
nanos_per_milli = 1_000_000

abbrev pub default_sleep_step : ℕ
default_sleep_step = 500 * nanos_per_milli

-- `with_step`: a step of at least 1 ms.
unfoldable pub clamp_step : ℕ → ℕ
clamp_step step = if ltb step nanos_per_milli then nanos_per_milli else step

abbrev pub min_nat : ℕ → ℕ → ℕ
min_nat a b = if leb a b then a else b

-- `sleep`: the chunks slept, from check number `i` of the flag on. `none` means that the fuel ran
-- out.
unfoldable pub sleep_chunks : ℕ → (ℕ → Bool) → ℕ → ℕ → ℕ → Option (List ℕ)
sleep_chunks zero requested step i remaining = none
sleep_chunks (suc fuel) requested step i remaining = elim (remaining == 0 || requested i) [
  | true ↦ some []
  | false ↦
      let chunk = min_nat remaining step in
      elim (sleep_chunks fuel requested step (i + 1) (remaining - chunk)) [
        | none ↦ none
        | some chunks ↦ some (chunk ∷ chunks)
      ]
]
