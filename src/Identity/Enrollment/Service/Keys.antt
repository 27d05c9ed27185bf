-- ===== src/Identity/Enrollment/Service/Keys.antt =====
-- What an enrollment leaves as it is, and what it leaves on disk.
use mayfly_agent.Security.Keeps.{Keeps, bind-Keeps, pure-Keeps, reading-Keeps}
use mayfly_agent.Identity.Enrollment.Service.{
  prepare, identity_of, persist_machine_identity, load_or_generate_keypair, enroll, read_keypair,
}
use mayfly_agent.Identity.Machine.{write_json, to_record, MachineIdentity, save}
use mayfly_agent.Text.Chars.{Bytes, Text, text_eq}
use mayfly_agent.Security.Store.{read_to_string, and_then}
use mayfly_agent.Security.{
  mode_public, symlink_metadata, metadata, complement, permission_bits, mode_secret,
  ensure_not_group_or_world_writable, validate_owner, ensure_not_symlink, is_symlink_kind, Entry,
  Disk,
}
use mayfly_agent.Security.Frame.{secure_write-Stands, Stands, Throughout}
use mayfly_agent.Identity.Enrollment.{EnrollmentResponse, EnrollmentRequest}
use mayfly_agent.Identity.Enrollment.Requests.{
  path_exists, validate_private_key_security, EnrollmentService, Outside,
}
use mathlib.Core.Path.{subst}
use mayfly_agent.Security.Modes.{ensure_not_symlink-eq, validate_mode_at_most-eq, validate_owner-eq}
use mayfly_agent.Result.{both_ok, Result-cases, ok, Result}
use Prim.Native.Nat.{bit_and}
use mayfly_agent.Identity.Keypair.{MachineKeypair}
use mayfly_agent.Errors.{Error}
use mayfly_agent.Security.Write.{History}
use mayfly_agent.Prelude.{
  ◌≡◌, refl, inl, inr, true, false, Option, none, some, [], ◌∷◌, ◌++◌, arith,
}

-- A read private key file is a regular file or directory of the agent's user, with no permission
-- bit beyond 0600.
pub record IsOwnerOnly (out : Outside) (service : EnrollmentService) (disk : Disk) : Type 0 where
  pub entry : Entry
  pub found : disk.lookup service.private_key_path ≡ some entry
  pub no_link : is_symlink_kind entry.kind ≡ false
  pub own : entry.uid ≡ out.os.effective_uid
  pub bits : bit_and (permission_bits entry) (complement (bit_and mode_secret 0x1ff)) ≡ 0

module _ (out : Outside) (service : EnrollmentService) where
  security-IsOwnerOnly :
      (disk : Disk)
      → validate_private_key_security out service disk ≡ ok tt
      → IsOwnerOnly out service disk
  unfolding validate_private_key_security
  security-IsOwnerOnly disk h =
      let path = service.private_key_path in
      let ((_, no_link), h1) = both_ok (ensure_not_symlink disk path) _ h in
      let ((_, own), h2) = both_ok (validate_owner disk path out.os.effective_uid) _ h1 in
      let (_, h3) = both_ok (ensure_not_group_or_world_writable disk path) _ h2 in
      let (e, found, own_eq) = validate_owner-eq disk path out.os.effective_uid own in
      let (e2, found2, bits) = validate_mode_at_most-eq disk path mode_secret h3 in
      let same : e2 ≡ e = cc in
      record {
        entry = e;
        found = found;
        no_link = ensure_not_symlink-eq disk path e no_link found;
        own = own_eq;
        bits =
            subst (λ x. bit_and (permission_bits x) (complement (bit_and mode_secret 0x1ff)) ≡ 0)
              same bits;
      }

  -- `read_keypair` returns a key only from a private key file that is not a symbolic link, belongs
  -- to the agent's user, and has no permission bit beyond owner read and write.
  pub read_keypair-IsOwnerOnly :
      (h : History) (keypair : MachineKeypair)
      → (read_keypair out service h).1 ≡ ok keypair
      → IsOwnerOnly out service h.present
  unfolding read_keypair and_then
  read_keypair-IsOwnerOnly h keypair r =
      elim (Result-cases (validate_private_key_security out service h.present)) [
        | inl (a, e) ↦ security-IsOwnerOnly h.present e
        | inr (e, f) ↦ absurd (ground (arith, f))
      ]

  -- The private key file, as it stands and can be read.
  KeyStands : Entry → History → Type 0
  KeyStands e h = Throughout (Stands service.private_key_path (some e)) h

  pub read_keypair-same : (h : History) → (read_keypair out service h).0 ≡ h
  unfolding read_keypair and_then
  read_keypair-same h = ground (
    arith,
    Result-cases (validate_private_key_security out service h.present),
    Result-cases (read_to_string out.os service.private_key_path h.present),
  )

  load_or_generate-Keeps : (e : Entry) → Keeps (KeyStands e) (load_or_generate_keypair out service)
  unfolding Keeps load_or_generate_keypair path_exists metadata symlink_metadata KeyStands
  load_or_generate-Keeps e h i =
      let exists : path_exists service.private_key_path h.present ≡ true = rw (i.0.1, i.0.0) refl in
      rw (exists, read_keypair-same h) i

  write_json-Keeps :
      (e : Entry) (json : Option Bytes)
      → text_eq service.private_key_path service.record_path ≡ false
      → text_eq service.private_key_path out.record_run.tmp ≡ false
      → Keeps (KeyStands e) (write_json out.record_run service.record_path json)
  unfolding Keeps KeyStands
  write_json-Keeps e none a b h i = i
  write_json-Keeps e (some json) a b h i =
      secure_write-Stands service.private_key_path (some e) out.record_run service.record_path
        (json ++ 10 ∷ []) mode_public h a b i

  save-Keeps :
      (e : Entry) (identity : MachineIdentity)
      → text_eq service.private_key_path service.record_path ≡ false
      → text_eq service.private_key_path out.record_run.tmp ≡ false
      → Keeps
          (KeyStands e)
          (save out.format out.record_run (to_record identity) service.record_path)
  unfolding save
  save-Keeps e identity a b = write_json-Keeps e (out.format.to_vec_pretty (to_record identity)) a b

  persist-Keeps :
      (e : Entry) (server_url hostname : Text) (keypair : MachineKeypair)
      (response : EnrollmentResponse)
      → text_eq service.private_key_path service.record_path ≡ false
      → text_eq service.private_key_path out.record_run.tmp ≡ false
      → Keeps
          (KeyStands e)
          (persist_machine_identity out service server_url hostname keypair response)
  unfolding persist_machine_identity
  persist-Keeps e server_url hostname keypair response a b =
      let I = KeyStands e in
      bind-Keeps I _ _ (pure-Keeps I _) (λ _. bind-Keeps I _ _ (pure-Keeps I _) (λ _.
        bind-Keeps I _ _ (pure-Keeps I _) (λ _. bind-Keeps I _ _ (pure-Keeps I _) (λ public_key.
          bind-Keeps I _ _
            (save-Keeps e (identity_of out service server_url hostname response public_key) a b)
            (λ _. pure-Keeps I _)))))

  prepare-Keeps :
      (e : Entry) (server_url token hostname : Text)
      → Keeps (KeyStands e) (prepare out service server_url token hostname)
  unfolding prepare
  prepare-Keeps e server_url token hostname =
      let I = KeyStands e in
      bind-Keeps I _ _ (reading-Keeps I _) (λ _. bind-Keeps I _ _ (pure-Keeps I _) (λ _.
        bind-Keeps I _ _ (pure-Keeps I _) (λ _. bind-Keeps I _ _ (pure-Keeps I _) (λ _.
          bind-Keeps I _ _ (load_or_generate-Keeps e)
            (λ keypair. bind-Keeps I _ _ (pure-Keeps I _) (λ request. pure-Keeps I _))))))

  enroll-Keeps :
      (e : Entry) (exchange : EnrollmentRequest → Result Error EnrollmentResponse)
      (server_url token hostname : Text)
      → text_eq service.private_key_path service.record_path ≡ false
      → text_eq service.private_key_path out.record_run.tmp ≡ false
      → Keeps (KeyStands e) (enroll out service exchange server_url token hostname)
  unfolding enroll
  enroll-Keeps e exchange server_url token hostname a b =
      let I = KeyStands e in
      bind-Keeps I _ _ (prepare-Keeps e server_url token hostname) (λ prepared.
        bind-Keeps I _ _ (pure-Keeps I _)
          (λ response. persist-Keeps e server_url hostname prepared.0 response a b))

  -- Where a private key file stands, an enrollment leaves it as it is in every state that the file
  -- system passes through, whatever the server answers. It is assumed that the key's path is
  -- neither that of the machine record nor the temporary one of its write.
  pub enroll_keeps_key :
      (exchange : EnrollmentRequest → Result Error EnrollmentResponse)
      (server_url token hostname : Text) (e : Entry) (h : History)
      → text_eq service.private_key_path service.record_path ≡ false
      → text_eq service.private_key_path out.record_run.tmp ≡ false
      → Throughout (Stands service.private_key_path (some e)) h
      → Throughout
          (Stands service.private_key_path (some e))
          (enroll out service exchange server_url token hostname h).0
  unfolding Keeps KeyStands
  enroll_keeps_key exchange server_url token hostname e h a b =
      enroll-Keeps e exchange server_url token hostname a b h
