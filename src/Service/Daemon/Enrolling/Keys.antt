-- ===== src/Service/Daemon/Enrolling/Keys.antt =====
-- What the enrollment at startup does to the private key.
use mayfly_agent.Text.Trim.{trim}
use mayfly_agent.Service.RuntimeState.{
  pin_unless_configured, pin_key, pin_if_absent, pin_bundle_signing_key,
}
use mayfly_agent.Text.Utf8.{as_bytes}
use mayfly_agent.Service.Daemon.Enrolling.{
  pin_response, usable_token, enroll_with, after_attempts, ensure_enrolled, Enrolling, retry_enroll,
  attempt, attempted, is_already_enrolled, or_load, EnrollSurroundings,
}
use mayfly_agent.Security.Store.{Store, Os}
use mayfly_agent.Security.Write.{secure_write, History}
use mayfly_agent.Identity.Enrollment.{EnrollmentResponse}
use mathlib.Core.Path.{subst}
use mayfly_agent.Security.{mode_public, Entry}
use mayfly_agent.Security.Frame.{secure_write-Stands, Stands, Throughout}
use mayfly_agent.Service.Backoff.{default_policy}
use mayfly_agent.Identity.Enrollment.Requests.{is_enrolled, EnrollmentService, Outside}
use mayfly_agent.Service.Backoff.Attempts.{retry_returns}
use mayfly_agent.Service.Scheduler.{RandomSource}
use mayfly_agent.Config.{bundle_signing_key_path, Config}
use mayfly_agent.Text.Chars.{text_eq, Text}
use mayfly_agent.Identity.Machine.{MachineIdentity}
use mayfly_agent.Errors.{Error}
use mayfly_agent.Float.{Floats}
use mayfly_agent.Prelude.{
  ℕ, zero, suc, ◌<◌, ◌≡◌, refl, sym, ap, inl, inr, Bool, true, false, not, Option, none, some, [],
  ◌∷◌, ◌++◌, Bool-cases,
}
use mayfly_agent.Security.Keeps.{Keeps, bind-Keeps, pure-Keeps, reading-Keeps}
use mayfly_agent.Result.{err, ok, Result}
use mayfly_agent.Identity.Enrollment.Service.{load_machine_identity, read_keypair}
use mayfly_agent.Identity.Enrollment.Service.Keys.{enroll_keeps_key, read_keypair-same}

pub read-Keeps :
    (I : History → Type 0) (out : Outside) (service : EnrollmentService)
    → Keeps I (read_keypair out service)
unfolding Keeps
read-Keeps I out service h i = subst I (sym (read_keypair-same out service h)) i

load-Keeps :
    (I : History → Type 0) (out : Outside) (service : EnrollmentService)
    → Keeps I (load_machine_identity out service)
unfolding load_machine_identity
load-Keeps I out service = bind-Keeps I _ _ (read-Keeps I out service) (λ keypair.
    bind-Keeps I _ _ (pure-Keeps I _)
      (λ public_key. bind-Keeps I _ _ (reading-Keeps I _) (λ r. pure-Keeps I _)))

or_load-Keeps :
    (I : History → Type 0) (out : Outside) (service : EnrollmentService)
    (r : History × Result Error MachineIdentity)
    → I r.0
    → I (or_load out service r).0
unfolding Keeps
or_load-Keeps I out service (h, ok identity) i = i
or_load-Keeps I out service (h, err e) i = elim (Bool-cases (is_already_enrolled e)) [
  | inl y ↦ rw y (load-Keeps I out service h i)
  | inr n ↦ rw n i
]

-- What the write of the pin keeps, the end of the enrollment keeps.
module _ (fl : Floats) (out : EnrollSurroundings) (config : Config fl) (service : EnrollmentService)
    (hostname : Text) (I : History → Type 0)
    (pins : (text : Text)
      → Keeps I (
          secure_write out.pin_run
            (bundle_signing_key_path fl config)
            (as_bytes (trim text ++ 10 ∷ []))
            mode_public)) where
  absent-Keeps :
      (text : Text) (recorded : Option Text)
      → Keeps I (pin_if_absent fl out.pin_run (bundle_signing_key_path fl config) text recorded)
  absent-Keeps text (some recorded) = pure-Keeps I _
  absent-Keeps text none = bind-Keeps I _ _ (pins text) (λ u. pure-Keeps I _)

  pin_key-Keeps :
      (os : Os) (k : Option Text)
      → Keeps I (pin_key fl os out.pin_run (bundle_signing_key_path fl config) k)
  pin_key-Keeps os none = pure-Keeps I _
  pin_key-Keeps os (some text) = bind-Keeps I _ _ (reading-Keeps I _) (absent-Keeps text)

  pin_unless-Keeps :
      (configured : Option Text) (pin : Store Bool)
      → Keeps I pin
      → Keeps I (pin_unless_configured fl configured pin)
  pin_unless-Keeps (some key) pin k = pure-Keeps I _
  pin_unless-Keeps none pin k = k

  pin_response-Keeps :
      (response : Option EnrollmentResponse) (identity : MachineIdentity)
      → Keeps I (pin_response fl out config service hostname response identity)
  unfolding pin_bundle_signing_key
  pin_response-Keeps none identity = pure-Keeps I _
  pin_response-Keeps (some response) identity =
      bind-Keeps I _ _
        (pin_unless-Keeps config.bundle_signing_public_key _
          (pin_key-Keeps (out.outside 0).os response.bundle_signing_key))
        (λ b. pure-Keeps I _)

  pub after_attempts_keeps :
      (s : Enrolling) (r : Result Error MachineIdentity)
      → I s.history
      → I (after_attempts fl out config service hostname s r).0
  unfolding Keeps
  after_attempts_keeps s (err e) i = i
  after_attempts_keeps s (ok identity) i = pin_response-Keeps s.last_response identity s.history i

module _ (fl : Floats) (out : EnrollSurroundings) (config : Config fl) (service : EnrollmentService)
    (hostname : Text) (key : Entry)
    (record_apart : text_eq service.private_key_path service.record_path ≡ false)
    (tmp_apart : (n : ℕ) → text_eq service.private_key_path (out.outside n).record_run.tmp ≡ false)
    (pin_apart : text_eq service.private_key_path (bundle_signing_key_path fl config) ≡ false)
    (pin_tmp_apart : text_eq service.private_key_path out.pin_run.tmp ≡ false) where
  KeyStays : History → Type 0
  KeyStays h = Throughout (Stands service.private_key_path (some key)) h

  attempt_keeps :
      (token : Text) (n : ℕ) (s : Enrolling)
      → KeyStays s.history
      → KeyStays (attempt fl out config service hostname token n s).0.history
  unfolding attempt KeyStays
  attempt_keeps token n s i = or_load-Keeps KeyStays (out.outside n) service _ (
      enroll_keeps_key (out.outside n) service _ config.server_url token hostname key s.history
        record_apart (tmp_apart n) i)

  attempted_keeps :
      (token : Text) (h : History) (n : ℕ)
      → KeyStays h
      → KeyStays (attempted fl out config service hostname token h n).0.history
  unfolding attempted
  attempted_keeps token h zero i = i
  attempted_keeps token h (suc n) i =
      attempt_keeps token (suc n) (attempted fl out config service hostname token h n).0
        (attempted_keeps token h n i)

  write-Keeps :
      (text : Text)
      → Keeps KeyStays (
          secure_write out.pin_run
            (bundle_signing_key_path fl config)
            (as_bytes (trim text ++ 10 ∷ []))
            mode_public)
  unfolding Keeps KeyStays
  write-Keeps text h i =
      secure_write-Stands service.private_key_path (some key) out.pin_run
        (bundle_signing_key_path fl config) _ mode_public h pin_apart pin_tmp_apart i

  Returned : Option (History × Result Error MachineIdentity) → Type 0
  Returned o = (r : History × Result Error MachineIdentity) × (o ≡ some r) × KeyStays r.0

  retry_enroll_keeps :
      (k fuel : ℕ) (rng : RandomSource) (token : Text) (h : History)
      → out.shutdown k ≡ true
      → k < fuel
      → KeyStays h
      → Returned (retry_enroll fl out config service hostname fuel rng token h)
  unfolding retry_enroll Returned
  retry_enroll_keeps k fuel rng token h stop l i =
      let (r, ran, _) =
        retry_returns fl (default_policy fl)
          (λ n. (attempted fl out config service hostname token h n).1)
          (λ check. not (out.shutdown check)) k fuel rng (ap not stop) l in
      (
        after_attempts fl out config service hostname
            (attempted fl out config service hostname token h r.attempts).0 r.outcome,
        rw ran refl,
        after_attempts_keeps fl out config service hostname KeyStays write-Keeps _ r.outcome
            (attempted_keeps token h r.attempts i),
      )

  -- Where a private key file stands as the daemon starts and shutdown is requested at some check of
  -- it, enrollment returns, given more fuel than the number of that check, and the key has stood
  -- unchanged through every state of the file system: however often enrollment is tried, whatever
  -- the server answers, and whatever write fails. It is assumed that the key's path is that of no
  -- other file written.
  pub ensure_enrolled_keeps_key :
      (k fuel : ℕ) (rng : RandomSource) (h : History)
      → out.shutdown k ≡ true
      → k < fuel
      → Throughout (Stands service.private_key_path (some key)) h
      → (r : History × Result Error MachineIdentity) × (ensure_enrolled fl out config service
            hostname fuel rng h
          ≡ some r)
        × Throughout (Stands service.private_key_path (some key)) r.0
  unfolding ensure_enrolled Returned KeyStays Keeps
  ensure_enrolled_keeps_key k fuel rng h stop l i =
      elim (Bool-cases (is_enrolled (out.outside 0) service h.present)) [
        | inl e ↦ rw e (
          load_machine_identity (out.outside 0) service h,
          refl,
          load-Keeps KeyStays (out.outside 0) service h i,
        )
        | inr e ↦ rw e (enrolling (usable_token fl out config service hostname))
      ]
    where
      enrolling :
          (token : Result Error Text)
          → Returned (enroll_with fl out config service hostname fuel rng token h)
      enrolling (err e) = ((h, err e), refl, i)
      enrolling (ok token) = retry_enroll_keeps k fuel rng token h stop l i
