-- ===== src/Service/Validation/Startup.antt =====
-- Which startups are refused.
use mayfly_agent.Text.Chars.{codes, Text}
use mayfly_agent.Security.Store.{read_to_string, Os}
use mayfly_agent.Service.Validation.{
  read_nonempty, is_dir, helper_check, fatal, config_check, validate_startup, ssh_compat_check,
  warn_only, pinged, dir_check, token_check, sshd_text_check, helper_with, ValidationReport,
  is_fail, failed_names, into_result, systemd_check, Check, has_failures,
}
use mayfly_agent.Config.{Config}
use mayfly_agent.Crates.{Crates}
use mayfly_agent.Float.{Floats}
use mayfly_agent.Text.Trim.{trim}
use mayfly_agent.Ipc.Client.{ping_helper, HelperClient}
use mayfly_agent.Result.{err, ok, Result}
use mayfly_agent.Security.{Disk}
use mayfly_agent.Errors.{Error}
use mayfly_agent.Config.Validate.{validate}
use mayfly_agent.Prelude.{
  ◌≡◌, refl, sym, ap, ◌∙◌, ◌↔◌, inl, inr, Bool, true, false, not, ◌||◌, [], ◌∷◌, arith, Bool-cases,
}

-- Without a failed check there is no name to report, and with one there is.
into_result_iff :
    (checks : ValidationReport) → (into_result checks ≡ ok tt) ↔ (has_failures checks ≡ false)
unfolding into_result has_failures failed_names
into_result_iff [] = (λ _. refl, λ _. refl)
into_result_iff (c ∷ checks) = elim (Bool-cases (is_fail c.severity)) [
  | inl e ↦ (λ h. absurd (ground arith), λ h. absurd (ground arith))
  | inr e ↦
      let (there, back) = into_result_iff checks in
      (λ h. ground (arith, there), λ h. ground (arith, back))
]

-- A check that only warns does not fail.
CannotFail : Check → Type 0
CannotFail c = is_fail c.severity ≡ false

token-CannotFail : (r : Result Error Bool) → CannotFail (token_check r)
unfolding CannotFail
token-CannotFail (ok true) = refl
token-CannotFail (ok false) = refl
token-CannotFail (err e) = refl

pinged-CannotFail : (r : Result Error Text) → CannotFail (pinged r)
unfolding CannotFail
pinged-CannotFail (ok version) = refl
pinged-CannotFail (err e) = refl

helper-CannotFail :
    (helper : Text → HelperClient) (r : Result Error Text) → CannotFail (helper_with helper r)
unfolding CannotFail
helper-CannotFail helper (ok contents) = pinged-CannotFail (ping_helper (helper (trim contents)))
helper-CannotFail helper (err e) = refl

sshd-CannotFail : (r : Result Error Text) → CannotFail (sshd_text_check r)
unfolding CannotFail
sshd-CannotFail (err e) = refl
sshd-CannotFail (ok text) = ground arith

systemd-CannotFail : (b : Bool) → CannotFail (systemd_check b)
unfolding CannotFail
systemd-CannotFail true = refl
systemd-CannotFail false = refl

state-CannotFail :
    (os : Os) (disk : Disk) (path : Text)
    → CannotFail (dir_check os disk "state_dir" path warn_only "state directory is missing")
unfolding CannotFail
state-CannotFail os disk path = ground arith

any_of_two :
    (a b c d e f g : Check)
    → CannotFail c
    → CannotFail d
    → CannotFail e
    → CannotFail f
    → CannotFail g
    → has_failures (a ∷ b ∷ c ∷ d ∷ e ∷ f ∷ g ∷ []) ≡ (is_fail a.severity || is_fail b.severity)
unfolding CannotFail has_failures
any_of_two a b c d e f g hc hd he hf hg = rw (hc, hd, he, hf, hg) (ground arith)

identity-fails :
    (os : Os) (disk : Disk) (path : Text)
    → is_fail (dir_check os disk "identity" path fatal "identity directory is missing").severity
      ≡ not (is_dir os disk path)
identity-fails os disk path = elim (Bool-cases (is_dir os disk path)) [
  | inl e ↦ rw e refl
  | inr e ↦ rw e refl
]

config_cases :
    (r : Result Error (Unit {0})) (d : Bool)
    → ((is_fail (config_check r).severity || not d) ≡ false) ↔ ((r ≡ ok tt) × (d ≡ true))
config_cases (ok u) true = (λ h. (refl, refl), λ h. refl)
config_cases (ok u) false = (λ h. absurd (cc), λ h. absurd (ground arith))
config_cases (err e) d = (λ h. absurd (cc), λ h. absurd (cc))

-- The startup checks pass exactly where the configuration is valid and the identity directory
-- exists: a missing state directory, token, helper, systemd or Include only warns.
pub validate_startup_iff :
    (fl : Floats) (lib : Crates) (os : Os) (helper : Text → HelperClient) (is_systemd : Bool)
    (config : Config fl) (disk : Disk)
    → (into_result (validate_startup fl lib os helper is_systemd config disk) ≡ ok tt)
      ↔ ((validate fl lib config ≡ ok tt) × (is_dir os disk config.identity_dir ≡ true))
unfolding validate_startup helper_check ssh_compat_check
validate_startup_iff fl lib os helper is_systemd config disk =
    let report = validate_startup fl lib os helper is_systemd config disk in
    let (there, back) = into_result_iff report in
    let configured = config_check (validate fl lib config) in
    let identity =
      dir_check os disk "identity" config.identity_dir fatal "identity directory is missing" in
    let reduced : has_failures report
        ≡ (is_fail configured.severity || not (is_dir os disk config.identity_dir)) =
      any_of_two configured identity _ _ _ _ _ (state-CannotFail os disk config.state_dir)
        (token-CannotFail (read_nonempty os config.helper_token_path disk))
        (helper-CannotFail helper (read_to_string os config.helper_token_path disk))
        (systemd-CannotFail is_systemd)
        (sshd-CannotFail (read_to_string os (codes "/etc/ssh/sshd_config") disk))
      ∙ ap (λ x. is_fail configured.severity || x) (identity-fails os disk config.identity_dir) in
    let (both, from_both) =
      config_cases (validate fl lib config) (is_dir os disk config.identity_dir) in
    (λ h. both (sym reduced ∙ there h), λ v. back (reduced ∙ from_both v))
