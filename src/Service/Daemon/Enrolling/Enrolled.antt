-- ===== src/Service/Daemon/Enrolling/Enrolled.antt =====
-- An agent that got its identity is enrolled.
use mayfly_agent.Service.Daemon.Enrolling.Loaded.{
  or_load-LeadsToFile, identity-LeadsToFile, LeadsToFile,
}
use mayfly_agent.Service.Backoff.{default_policy}
use mayfly_agent.Service.Daemon.Enrolling.{
  usable_token, enroll_with, ensure_enrolled, retry_enroll, after_attempts, Enrolling, attempted,
  attempt, EnrollSurroundings,
}
use mayfly_agent.Service.Backoff.Attempts.{retry_returns}
use mayfly_agent.Service.Daemon.Enrolling.Keys.{after_attempts_keeps}
use mayfly_agent.Identity.Enrollment.Requests.{is_enrolled, EnrollmentService, Outside}
use mayfly_agent.Service.Scheduler.{RandomSource}
use mayfly_agent.Security.Frame.{secure_write-Keeps}
use mayfly_agent.Identity.Enrollment.Service.Enrolled.{enroll_lem}
use mayfly_agent.Security.{mode_public}
use mayfly_agent.Text.Trim.{trim}
use mayfly_agent.Text.Utf8.{as_bytes}
use mayfly_agent.Security.Write.{secure_write, History}
use mayfly_agent.Config.{bundle_signing_key_path, Config}
use mayfly_agent.Text.Chars.{text_eq, Text}
use mayfly_agent.Errors.{Error}
use mayfly_agent.Identity.Machine.{MachineIdentity}
use mayfly_agent.Float.{Floats}
use mayfly_agent.Prelude.{
  ℕ, zero, suc, ◌<◌, ◌≡◌, refl, ap, inl, inr, true, false, not, Option, some, [], ◌∷◌, ◌++◌,
  Bool-cases,
}
use mayfly_agent.Result.{err, ok, Result}
use mayfly_agent.Security.Keeps.{Keeps}
use mayfly_agent.Security.Store.{Os}
use mayfly_agent.Identity.Enrollment.Service.{load_machine_identity}
use mathlib.Core.Path.{subst}

-- Where an identity was returned, the record of the machine is on disk.
abbrev pub IsEnrolledAfter :
    Os → EnrollmentService → History × Result Error MachineIdentity → Type 0
IsEnrolledAfter os service (h, ok identity) = LeadsToFile os service.record_path h
IsEnrolledAfter os service (h, err e) = Unit

enrolled_either :
    (os : Os) (service : EnrollmentService) (r : History × Result Error MachineIdentity)
    → LeadsToFile os service.record_path r.0
    → IsEnrolledAfter os service r
enrolled_either os service (h, ok identity) i = i
enrolled_either os service (h, err e) i = tt

load-IsEnrolledAfter :
    (out : Outside) (service : EnrollmentService) (h : History)
    (r : History × Result Error MachineIdentity)
    → load_machine_identity out service h ≡ r
    → IsEnrolledAfter out.os service r
load-IsEnrolledAfter out service h (after, ok identity) e =
    identity-LeadsToFile out service h after identity e
load-IsEnrolledAfter out service h (after, err f) e = tt

module _ (fl : Floats) (out : EnrollSurroundings) (config : Config fl) (service : EnrollmentService)
    (hostname : Text) (os : Os) (same_os : (n : ℕ) → (out.outside n).os ≡ os)
    (tmp_apart : (n : ℕ) → text_eq service.record_path (out.outside n).record_run.tmp ≡ false)
    (pin_apart : text_eq service.record_path (bundle_signing_key_path fl config) ≡ false)
    (pin_tmp_apart : text_eq service.record_path out.pin_run.tmp ≡ false) where
  Recorded : History → Type 0
  Recorded h = LeadsToFile os service.record_path h

  attempt-Recorded :
      (token : Text) (n : ℕ) (s : Enrolling) (identity : MachineIdentity)
      → (attempt fl out config service hostname token n s).1 ≡ ok identity
      → Recorded (attempt fl out config service hostname token n s).0.history
  unfolding attempt Recorded LeadsToFile
  attempt-Recorded token n s identity e =
      subst
        (λ o.
          LeadsToFile o service.record_path
            (attempt fl out config service hostname token n s).0.history)
        (same_os n)
        (or_load-LeadsToFile (out.outside n) service _ identity
          (λ i done.
            let stored =
              (enroll_lem (out.outside n) service (tmp_apart n) _ config.server_url token hostname
                s.history i done).1.stored in
            rw stored refl)
          e)

  attempted-Recorded :
      (token : Text) (h : History) (n : ℕ) (identity : MachineIdentity)
      → (attempted fl out config service hostname token h n).1 ≡ ok identity
      → Recorded (attempted fl out config service hostname token h n).0.history
  unfolding attempted
  attempted-Recorded token h zero identity e = absurd (cc)
  attempted-Recorded token h (suc n) identity e = attempt-Recorded token (suc n) _ identity e

  pin-Recorded :
      (text : Text)
      → Keeps Recorded (
          secure_write out.pin_run
            (bundle_signing_key_path fl config)
            (as_bytes (trim text ++ 10 ∷ []))
            mode_public)
  unfolding Keeps Recorded LeadsToFile
  pin-Recorded text =
      secure_write-Keeps Recorded out.pin_run (bundle_signing_key_path fl config) _ mode_public
        (λ entry h i. rw pin_tmp_apart i) (λ h i. rw (pin_tmp_apart, pin_apart) i) (λ h i. i)

  after_attempts-IsEnrolledAfter :
      (token : Text) (h : History) (n : ℕ) (outcome : Result Error MachineIdentity)
      → ((identity : MachineIdentity)
          → outcome ≡ ok identity
          → (attempted fl out config service hostname token h n).1 ≡ ok identity)
      → IsEnrolledAfter os service (
          after_attempts fl out config service hostname
            (attempted fl out config service hostname token h n).0
            outcome)
  unfolding Recorded
  after_attempts-IsEnrolledAfter token h n (err e) answered = tt
  after_attempts-IsEnrolledAfter token h n (ok identity) answered = enrolled_either os service _ (
      after_attempts_keeps fl out config service hostname Recorded pin-Recorded
        (attempted fl out config service hostname token h n).0 (ok identity)
        (attempted-Recorded token h n identity (answered identity refl)))

  abbrev pub EndsEnrolled : Option (History × Result Error MachineIdentity) → Type 0
  EndsEnrolled o =
      (r : History × Result Error MachineIdentity) × (o ≡ some r) × IsEnrolledAfter os service r

  retry_enroll-EndsEnrolled :
      (k fuel : ℕ) (rng : RandomSource) (token : Text) (h : History)
      → out.shutdown k ≡ true
      → k < fuel
      → EndsEnrolled (retry_enroll fl out config service hostname fuel rng token h)
  unfolding retry_enroll
  retry_enroll-EndsEnrolled k fuel rng token h stop l =
      let (r, ran, answered) =
        retry_returns fl (default_policy fl)
          (λ n. (attempted fl out config service hostname token h n).1)
          (λ check. not (out.shutdown check)) k fuel rng (ap not stop) l in
      (
        after_attempts fl out config service hostname
            (attempted fl out config service hostname token h r.attempts).0 r.outcome,
        rw ran refl,
        after_attempts-IsEnrolledAfter token h r.attempts r.outcome answered,
      )

  enroll_with-EndsEnrolled :
      (k fuel : ℕ) (rng : RandomSource) (token : Result Error Text) (h : History)
      → out.shutdown k ≡ true
      → k < fuel
      → EndsEnrolled (enroll_with fl out config service hostname fuel rng token h)
  enroll_with-EndsEnrolled k fuel rng (err e) h stop l = ((h, err e), refl, tt)
  enroll_with-EndsEnrolled k fuel rng (ok token) h stop l =
      retry_enroll-EndsEnrolled k fuel rng token h stop l

  -- Where shutdown is requested at some check of it, enrollment at startup returns, given more
  -- fuel than the number of that check; and where it returns an identity, a regular file stands
  -- under the path of the machine record: the next start finds the machine enrolled when that path
  -- can be read. It is assumed that links lead where they did, and that no other file is written
  -- under that path.
  pub ensure_enrolled_enrolls :
      (k fuel : ℕ) (rng : RandomSource) (h : History)
      → out.shutdown k ≡ true
      → k < fuel
      → EndsEnrolled (ensure_enrolled fl out config service hostname fuel rng h)
  unfolding ensure_enrolled
  ensure_enrolled_enrolls k fuel rng h stop l =
      elim (Bool-cases (is_enrolled (out.outside 0) service h.present)) [
        | inl e ↦ rw e (
          load_machine_identity (out.outside 0) service h,
          refl,
          subst (λ o. IsEnrolledAfter o service (load_machine_identity (out.outside 0) service h))
              (same_os 0) (load-IsEnrolledAfter (out.outside 0) service h _ refl),
        )
        | inr e ↦ rw e (
            enroll_with-EndsEnrolled k fuel rng (usable_token fl out config service hostname) h stop
              l)
      ]
