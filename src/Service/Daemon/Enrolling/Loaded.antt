-- ===== src/Service/Daemon/Enrolling/Loaded.antt =====
-- What stands on disk when an identity was loaded.
use mayfly_agent.Service.Daemon.Enrolling.{is_already_enrolled, or_load}
use mayfly_agent.Identity.Enrollment.Requests.{EnrollmentService, Outside}
use mayfly_agent.Security.{Entry}
use mayfly_agent.Security.Write.{History}
use mayfly_agent.Text.Chars.{Bytes, Text}
use mayfly_agent.Errors.{Error, io}
use mayfly_agent.Identity.Machine.{MachineIdentity, MachineRecord, RecordFormat, load}
use mayfly_agent.Prelude.{
  ◌≡◌, refl, ap, inl, inr, Bool, true, false, Option, none, some, if◌then◌else◌, Bool-cases,
}
use mayfly_agent.Result.{err, ok, Result, first_ok}
use mayfly_agent.Security.Keeps.{and_then-ok}
use mayfly_agent.Security.Store.{
  is_file_entry, followed_link, is_regular, read_entry, read_file, Os,
}
use mayfly_agent.Identity.Enrollment.Service.{load_machine_identity}
use mathlib.Core.Path.{subst}

read_entry-file :
    (e : Option Entry) (bytes : Bytes) → read_entry e ≡ ok bytes → is_file_entry e ≡ true
read_entry-file none bytes h = absurd (cc)
read_entry-file (some e) bytes h = elim (Bool-cases (is_regular e.kind)) [
  | inl r ↦ r
  | inr r ↦ absurd (let bad : err io ≡ ok bytes = rw r at h in cc)
]

-- A regular file stands where the path leads.
unfoldable pub LeadsToFile : Os → Text → History → Type 0
LeadsToFile os path h = is_file_entry (followed_link os path (h.present.lookup path)) ≡ true

loaded-LeadsToFile :
    (format : RecordFormat) (os : Os) (path : Text) (h : History) (r : MachineRecord)
    → load format os path h.present ≡ ok r
    → LeadsToFile os path h
unfolding load LeadsToFile read_file
loaded-LeadsToFile format os path h r e =
    let (bytes, (_, read)) = first_ok (read_file os path h.present) _ e in
    elim (Bool-cases (os.readable path)) [
      | inl y ↦ read_entry-file _ bytes (rw y at read)
      | inr n ↦ absurd (let bad : err io ≡ ok bytes = rw n at read in cc)
    ]

pub identity-LeadsToFile :
    (out : Outside) (service : EnrollmentService) (h after : History) (identity : MachineIdentity)
    → load_machine_identity out service h ≡ (after, ok identity)
    → LeadsToFile out.os service.record_path after
unfolding load_machine_identity
identity-LeadsToFile out service h after identity e =
    let (keypair, _, h1) = and_then-ok _ _ after e in
    let (public_key, _, h2) = and_then-ok _ _ after h1 in
    let (r, loaded, h3) = and_then-ok _ _ after h2 in
    let same = ap (λ (t : History × Result Error MachineIdentity). t.0) h3 in
    subst (LeadsToFile out.os service.record_path) same
      (loaded-LeadsToFile out.format out.os service.record_path _ r loaded)

pub or_load-LeadsToFile :
    (out : Outside) (service : EnrollmentService) (r : History × Result Error MachineIdentity)
    (identity : MachineIdentity)
    → ((i : MachineIdentity) → r.1 ≡ ok i → LeadsToFile out.os service.record_path r.0)
    → (or_load out service r).1 ≡ ok identity
    → LeadsToFile out.os service.record_path (or_load out service r).0
or_load-LeadsToFile out service (h, ok i) identity done e = done i refl
or_load-LeadsToFile out service (h, err f) identity done e = choose (is_already_enrolled f) e
  where
    choose :
        (b : Bool)
        → (if b then load_machine_identity out service h else (h, err f)).1 ≡ ok identity
        → LeadsToFile out.os service.record_path
            (if b then load_machine_identity out service h else (h, err f)).0
    choose true e =
        identity-LeadsToFile out service h _ identity
          (ap (λ x. ((load_machine_identity out service h).0, x)) e)
    choose false e = absurd (cc)
