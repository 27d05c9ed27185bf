-- ===== src/Service/Daemon/Enrolling.antt =====
-- src/service/daemon.rs: `ensure_enrolled`. The attempts are numbered from one; a daemon that makes
-- more than 2^32 of them is not modelled.
pub mod Keys
pub mod Loaded
pub mod Enrolled
use mayfly_agent.Service.Backoff.{default_policy, retry_with_backoff, Retried}
use mayfly_agent.Identity.Enrollment.Service.{enroll, prepare, load_machine_identity}
use mayfly_agent.Identity.Enrollment.{validate_token, EnrollmentRequest, EnrollmentResponse}
use mayfly_agent.Identity.ApiClient.{exchange, HttpEnrollmentClient}
use mayfly_agent.Service.RuntimeState.{pin_bundle_signing_key}
use mayfly_agent.Errors.{enrollment_transport, invalid_token, already_enrolled, Error}
use mayfly_agent.Identity.Enrollment.Requests.{is_enrolled, EnrollmentService, Outside}
use mayfly_agent.Identity.Machine.{MachineIdentity}
use mayfly_agent.Result.{◌>>◌, ◌>>=◌, err, ok, Result, ok_or}
use mayfly_agent.Service.Scheduler.{RandomSource}
use mayfly_agent.Text.Chars.{Text}
use mayfly_agent.Identity.Keypair.{MachineKeypair}
use mayfly_agent.Config.{Config}
use mayfly_agent.Float.{Floats}
use mayfly_agent.Prelude.{ℕ, zero, suc, Bool, true, false, not, Option, none, some, if◌then◌else◌}
use mayfly_agent.Security.Store.{and_then, pure, Store}
use mayfly_agent.Security.Write.{History, Run}

-- What enrollment meets outside: for attempt number `n`, the crates, clock and writes, and the
-- server; the token of the environment, how the construction of the HTTP client goes, whether
-- shutdown is requested at each check of it, and how the write of the pin goes.
pub record EnrollSurroundings : Type 0 where
  pub outside : ℕ → Outside
  pub client : ℕ → HttpEnrollmentClient
  pub token : Option Text
  pub http : Result Error (Unit {0})
  pub shutdown : ℕ → Bool
  pub pin_run : Run

-- The files, and the last response of the client.
pub record Enrolling : Type 0 where
  pub history : History
  pub last_response : Option EnrollmentResponse

abbrev pub remembered :
    Result Error EnrollmentResponse → Option EnrollmentResponse → Option EnrollmentResponse
remembered (ok response) last = some response
remembered (err e) last = last

-- The client's last response after an attempt that got as far as `prepare` did.
abbrev pub response_after :
    HttpEnrollmentClient
    → Result Error (MachineKeypair × EnrollmentRequest)
    → Option EnrollmentResponse
    → Option EnrollmentResponse
response_after client (ok prepared) last = remembered (exchange client prepared.1) last
response_after client (err e) last = last

abbrev pub is_already_enrolled : Error → Bool
is_already_enrolled already_enrolled = true
is_already_enrolled _ = false

-- A machine that turns out to be enrolled is loaded.
abbrev pub or_load :
    Outside
    → EnrollmentService
    → History × Result Error MachineIdentity
    → History × Result Error MachineIdentity
or_load out service (h, ok identity) = (h, ok identity)
or_load out service (h, err e) =
    if is_already_enrolled e then load_machine_identity out service h else (h, err e)

module _ (fl : Floats) (out : EnrollSurroundings) (config : Config fl) (service : EnrollmentService)
    (hostname : Text) where
  unfoldable pub attempt : Text → ℕ → Enrolling → Enrolling × Result Error MachineIdentity
  attempt token n s =
      let client = record (out.client n) { server_url = config.server_url } in
      let prepared = prepare (out.outside n) service config.server_url token hostname s.history in
      let ended = or_load (out.outside n) service (
        enroll (out.outside n) service (exchange client) config.server_url token hostname
          s.history) in
      (
        record {
          history = ended.0;
          last_response = response_after client prepared.1 s.last_response;
        },
        ended.1,
      )

  -- After so many attempts.
  unfoldable pub attempted : Text → History → ℕ → Enrolling × Result Error MachineIdentity
  attempted token h zero = (record { history = h; last_response = none }, err enrollment_transport)
  attempted token h (suc n) = attempt token (suc n) (attempted token h n).0

  abbrev pub pin_response : Option EnrollmentResponse → MachineIdentity → Store MachineIdentity
  pin_response none identity h = (h, ok identity)
  pin_response (some response) identity h =
      and_then
        (pin_bundle_signing_key fl (out.outside 0).os out.pin_run config response.bundle_signing_key
          h)
        (λ _. pure (ok identity))

  abbrev pub after_attempts :
      Enrolling → Result Error MachineIdentity → History × Result Error MachineIdentity
  after_attempts s (err e) = (s.history, err e)
  after_attempts s (ok identity) = pin_response s.last_response identity s.history

  abbrev pub after_retry :
      Text
      → History
      → Option (Retried MachineIdentity)
      → Option (History × Result Error MachineIdentity)
  after_retry token h none = none
  after_retry token h (some r) = some (after_attempts (attempted token h r.attempts).0 r.outcome)

  unfoldable pub retry_enroll :
      ℕ → RandomSource → Text → History → Option (History × Result Error MachineIdentity)
  retry_enroll fuel rng token h = after_retry token h (
      retry_with_backoff fl (default_policy fl) (λ n. (attempted token h n).1)
        (λ check. not (out.shutdown check)) fuel rng)

  -- The token, if it is well formed and a client can be made.
  unfoldable pub usable_token : Result Error Text
  usable_token = do token ← ok_or invalid_token out.token; validate_token token; out.http; ok token

  abbrev pub enroll_with :
      ℕ
      → RandomSource
      → Result Error Text
      → History
      → Option (History × Result Error MachineIdentity)
  enroll_with fuel rng (err e) h = some (h, err e)
  enroll_with fuel rng (ok token) h = retry_enroll fuel rng token h

  -- `none` when the fuel ran out.
  unfoldable pub ensure_enrolled :
      ℕ → RandomSource → History → Option (History × Result Error MachineIdentity)
  ensure_enrolled fuel rng h =
      if is_enrolled (out.outside 0) service h.present
      then some (load_machine_identity (out.outside 0) service h)
      else enroll_with fuel rng usable_token h
