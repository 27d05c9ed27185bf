-- ===== src/Identity/Enrollment/Service.antt =====
-- src/identity/enrollment.rs: what the enrollment service does to the files.
pub mod Keys
pub mod Enrolled
use mayfly_agent.Identity.Enrollment.Requests.{
  create_enrollment_request, is_enrolled, validate_private_key_security, path_exists,
  EnrollmentService, Outside,
}
use mayfly_agent.Security.{mode_public, mode_secret}
use mayfly_agent.Identity.Machine.{to_record, save, into_identity, load, from_secs, MachineIdentity}
use mayfly_agent.Result.{ok, reject_if, Result}
use mayfly_agent.Identity.Enrollment.{
  validate_token, validate_hostname, validate_server_url, EnrollmentResponse, EnrollmentRequest,
  validate_response,
}
use mayfly_agent.Identity.Keypair.{
  generate, from_openssh_private, to_openssh_private, public_key_openssh, MachineKeypair,
}
use mayfly_agent.Errors.{already_enrolled, key_already_exists, Error}
use mayfly_agent.Text.Utf8.{as_bytes}
use mayfly_agent.Security.Store.{read_to_string, pure, reading, Store, ◌>>=◌, ◌>>◌}
use mayfly_agent.Security.Write.{Act, secure_write}
use mayfly_agent.Text.Chars.{Text}
use mayfly_agent.Prelude.{◌||◌, [], ◌∷◌, ◌++◌, if◌then◌else◌}

unfoldable pub read_keypair : Outside → EnrollmentService → Store MachineKeypair
read_keypair out service =
    reading (validate_private_key_security out service)
    >> reading (read_to_string out.os service.private_key_path)
    >>= (λ pem. pure (from_openssh_private out.keys pem))

unfoldable pub write_keypair : Outside → EnrollmentService → MachineKeypair → Act
write_keypair out service keypair = do
  private_pem ← pure (to_openssh_private out.keys keypair)
  secure_write out.private_run service.private_key_path (as_bytes private_pem) mode_secret
  public_line ← pure (public_key_openssh out.keys keypair)
  secure_write out.public_run service.public_key_path (as_bytes (public_line ++ 10 ∷ []))
      mode_public

unfoldable pub generate_machine_keypair : Outside → EnrollmentService → Store MachineKeypair
generate_machine_keypair out service = do
  reading (λ disk.
      reject_if
        (path_exists service.private_key_path disk || path_exists service.public_key_path disk)
        key_already_exists)
  keypair ← pure (generate out.keys)
  write_keypair out service keypair
  pure (ok keypair)

unfoldable pub load_or_generate_keypair : Outside → EnrollmentService → Store MachineKeypair
load_or_generate_keypair out service h =
    if path_exists service.private_key_path h.present
    then read_keypair out service h
    else generate_machine_keypair out service h

unfoldable pub load_machine_identity : Outside → EnrollmentService → Store MachineIdentity
load_machine_identity out service = do
  keypair ← read_keypair out service
  public_key ← pure (public_key_openssh out.keys keypair)
  r ← reading (load out.format out.os service.record_path)
  pure (into_identity out.format r public_key service.private_key_path service.public_key_path)

abbrev pub identity_of :
    Outside → EnrollmentService → Text → Text → EnrollmentResponse → Text → MachineIdentity
identity_of out service server_url hostname response public_key = record {
  machine_id = response.machine_id;
  hostname = hostname;
  public_key = public_key;
  private_key_path = service.private_key_path;
  public_key_path = service.public_key_path;
  enrolled_at = out.now;
  server_url = server_url;
  heartbeat_interval = from_secs response.heartbeat_interval;
  sync_interval = from_secs response.sync_interval;
}

unfoldable pub persist_machine_identity :
    Outside
    → EnrollmentService
    → Text
    → Text
    → MachineKeypair
    → EnrollmentResponse
    → Store MachineIdentity
persist_machine_identity out service server_url hostname keypair response = do
  pure (validate_server_url server_url)
  pure (validate_hostname hostname)
  pure (validate_response out.lib response)
  public_key ← pure (public_key_openssh out.keys keypair)
  let identity = identity_of out service server_url hostname response public_key
  save out.format out.record_run (to_record identity) service.record_path
  pure (ok identity)

-- `enroll` up to the exchange.
unfoldable pub prepare :
    Outside → EnrollmentService → Text → Text → Text → Store (MachineKeypair × EnrollmentRequest)
prepare out service server_url token hostname = do
  reading (λ disk. reject_if (is_enrolled out service disk) already_enrolled)
  pure (validate_server_url server_url)
  pure (validate_token token)
  pure (validate_hostname hostname)
  keypair ← load_or_generate_keypair out service
  request ← pure (create_enrollment_request out token hostname keypair)
  pure (ok (keypair, request))

-- `enroll`, of the client's exchange.
unfoldable pub enroll :
    Outside
    → EnrollmentService
    → (EnrollmentRequest → Result Error EnrollmentResponse)
    → Text
    → Text
    → Text
    → Store MachineIdentity
enroll out service exchange server_url token hostname = do
  prepared ← prepare out service server_url token hostname
  response ← pure (exchange prepared.1)
  persist_machine_identity out service server_url hostname prepared.0 response
