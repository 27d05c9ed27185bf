-- ===== src/Identity/Enrollment/Service/Enrolled.antt =====
-- What an enrollment that succeeded leaves behind.
use mathlib.Core.Path.{subst}
use mayfly_agent.Identity.Keypair.{validate_ed25519_public_key, public_key_openssh, MachineKeypair}
use mayfly_agent.Identity.Enrollment.Service.{
  load_or_generate_keypair, prepare, identity_of, persist_machine_identity, enroll,
}
use mayfly_agent.Identity.Enrollment.Requests.{
  create_enrollment_request, is_enrolled, EnrollmentService, Outside,
}
use mayfly_agent.Result.{both_ok, first_ok, err, ok, Result}
use mayfly_agent.Security.Keeps.{and_then-ok}
use mayfly_agent.Identity.Enrollment.{
  validate_token, validate_hostname, EnrollmentRequest, EnrollmentResponse, validate_response,
}
use mayfly_agent.Prelude.{
  ◌*◌, ◌≡◌, refl, sym, ap, ◌∙◌, true, false, Option, none, some, [], ◌∷◌, ◌++◌,
}
use mayfly_agent.Identity.Machine.{
  MachineRecord, load, to_record, write_json, MachineIdentity, save,
}
use mayfly_agent.Security.{Disk, mode_public}
use mayfly_agent.Security.Store.{read_file, is_file, pure, Store, and_then, ◌>>◌}
use mayfly_agent.Errors.{already_enrolled, Error}
use mayfly_agent.Identity.Machine.RoundTrip.{ReadsBack}
use mayfly_agent.Security.Lands.{secure_write-lands}
use mayfly_agent.Security.Write.{new_file, History}
use mayfly_agent.Text.Chars.{Bytes, text_eq, Text}

-- Where the computation succeeds, `Q` holds of its value and of the state it leaves.
Yields : {A : Type 0} → (A → History → Type 0) → Store A → Type 0
Yields {A} Q m = (h : History) (a : A) → (m h).1 ≡ ok a → Q a (m h).0

-- The request with this token, host name and public key.
abbrev pub request_with : Outside → Text → Text → Text → EnrollmentRequest
request_with out token hostname public_key = record {
  enrollment_token = token;
  hostname = hostname;
  os = out.os_name;
  arch = out.arch;
  agent_version = out.version;
  public_key = public_key;
}

-- A key pair was prepared, the server's answer to the request with its public key passed validation,
-- and the identity holds that public key and what the answer says.
pub record IsGranted (out : Outside) (service : EnrollmentService)
    (exchange : EnrollmentRequest → Result Error EnrollmentResponse)
    (server_url token hostname : Text) (before : History) (identity : MachineIdentity)
    : Type 0 where
  pub keypair : MachineKeypair
  pub response : EnrollmentResponse
  pub loaded : (load_or_generate_keypair out service before).1 ≡ ok keypair
  pub key : public_key_openssh out.keys keypair ≡ ok identity.public_key
  pub answered : exchange (request_with out token hostname identity.public_key) ≡ ok response
  pub validated : validate_response out.lib response ≡ ok tt
  pub machine_id : identity.machine_id ≡ response.machine_id
  pub heartbeat : identity.heartbeat_interval ≡ response.heartbeat_interval * 1_000_000_000
  pub sync : identity.sync_interval ≡ response.sync_interval * 1_000_000_000
  pub same_hostname : identity.hostname ≡ hostname
  pub same_server : identity.server_url ≡ server_url
  pub private_key : identity.private_key_path ≡ service.private_key_path
  pub public_key_file : identity.public_key_path ≡ service.public_key_path
  pub enrolled : identity.enrolled_at ≡ out.now

-- The record of the identity stands in its file, complete and readable by all.
pub record IsRecorded (out : Outside) (service : EnrollmentService) (identity : MachineIdentity)
    (h : History) : Type 0 where
  pub json : Bytes
  pub printed : out.format.to_vec_pretty (to_record identity) ≡ some json
  pub stored :
      h.present.lookup service.record_path
      ≡ new_file out.record_run.uid mode_public (json ++ 10 ∷ [])

-- A request was made, of this key pair.
abbrev pub IsRequest : Outside → Text → Text → MachineKeypair → EnrollmentRequest → Type 0
IsRequest out token hostname keypair request =
    (public_key : Text) × (public_key_openssh out.keys keypair ≡ ok public_key)
    × (request ≡ request_with out token hostname public_key)

create_enrollment_request-IsRequest :
    (out : Outside) (token hostname : Text) (keypair : MachineKeypair) (request : EnrollmentRequest)
    → create_enrollment_request out token hostname keypair ≡ ok request
    → IsRequest out token hostname keypair request
unfolding create_enrollment_request
create_enrollment_request-IsRequest out token hostname keypair request h =
    let (_, h1) = both_ok (validate_token token) _ h in
    let (_, h2) = both_ok (validate_hostname hostname) _ h1 in
    let (public_key, (h3, key)) = first_ok (public_key_openssh out.keys keypair) _ h2 in
    let (_, h4) = both_ok (validate_ed25519_public_key out.lib public_key) _ h3 in
    let same : request ≡ request_with out token hostname public_key = cc in (public_key, key, same)

module _ (out : Outside) (service : EnrollmentService)
    (apart : text_eq service.record_path out.record_run.tmp ≡ false) where
  write_json-lands :
      (json : Option Bytes) (h : History)
      → (write_json out.record_run service.record_path json h).1 ≡ ok tt
      → (bytes : Bytes) × (json ≡ some bytes)
        × ((write_json out.record_run service.record_path json h).0.present.lookup
              service.record_path
            ≡ new_file out.record_run.uid mode_public (bytes ++ 10 ∷ []))
  write_json-lands none h e = absurd (cc)
  write_json-lands (some bytes) h e = (
    bytes,
    refl,
    secure_write-lands out.record_run service.record_path (bytes ++ 10 ∷ []) mode_public apart h e,
  )

  saved-Yields :
      (server_url hostname public_key : Text) (response : EnrollmentResponse)
      → let identity = identity_of out service server_url hostname response public_key in
        Yields
          (λ i h. (i ≡ identity) × IsRecorded out service i h)
          (save out.format out.record_run (to_record identity) service.record_path
            >> pure (ok identity))
  unfolding Yields save and_then
  saved-Yields server_url hostname public_key response h a e =
      settle
        (save out.format out.record_run
          (to_record (identity_of out service server_url hostname response public_key))
          service.record_path h)
        e
        (write_json-lands
          (out.format.to_vec_pretty
            (to_record (identity_of out service server_url hostname response public_key)))
          h)
    where
      identity : MachineIdentity
      identity = identity_of out service server_url hostname response public_key

      settle :
          (r : History × Result Error (Unit {0}))
          → (and_then r (λ _. pure (ok identity))).1 ≡ ok a
          → (r.1 ≡ ok tt
              → (bytes : Bytes) × (out.format.to_vec_pretty (to_record identity) ≡ some bytes)
                × (r.0.present.lookup service.record_path
                    ≡ new_file out.record_run.uid mode_public (bytes ++ 10 ∷ [])))
          → (a ≡ identity) × IsRecorded out service a (and_then r (λ _. pure (ok identity))).0
      settle (after, err f) w l = absurd (cc)
      settle (after, ok u) w l =
          let same : a ≡ identity = cc in
          let (bytes, printed, stored) = l refl in
          (
            same,
            record {
              json = bytes;
              printed = ap (λ i. out.format.to_vec_pretty (to_record i)) same ∙ printed;
              stored = stored;
            },
          )

  -- What `prepare` returns.
  prepare_lem :
      (server_url token hostname : Text) (h : History)
      (prepared : MachineKeypair × EnrollmentRequest)
      → (prepare out service server_url token hostname h).1 ≡ ok prepared
      → ((load_or_generate_keypair out service h).1 ≡ ok prepared.0)
        × IsRequest out token hostname prepared.0 prepared.1
  unfolding prepare
  prepare_lem server_url token hostname h prepared e =
      let after = (prepare out service server_url token hostname h).0 in
      let whole : prepare out service server_url token hostname h ≡ (after, ok prepared) =
        ap (λ r. (after, r)) e in
      let (_, _, h1) = and_then-ok _ _ after whole in
      let (_, _, h2) = and_then-ok _ _ after h1 in
      let (_, _, h3) = and_then-ok _ _ after h2 in
      let (_, _, h4) = and_then-ok _ _ after h3 in
      let (keypair, loaded, h5) = and_then-ok _ _ after h4 in
      let (request, created, h6) = and_then-ok _ _ after h5 in
      let results =
        ap (λ (r : History × Result Error (MachineKeypair × EnrollmentRequest)). r.1) h6 in
      let pair : (keypair, request) ≡ prepared = cc in
      subst
        (λ (q : MachineKeypair × EnrollmentRequest).
          ((load_or_generate_keypair out service h).1 ≡ ok q.0)
          × IsRequest out token hostname q.0 q.1)
        pair
        (loaded, create_enrollment_request-IsRequest out token hostname keypair request created)

  pub enroll_lem :
      (exchange : EnrollmentRequest → Result Error EnrollmentResponse)
      (server_url token hostname : Text) (h : History) (identity : MachineIdentity)
      → (enroll out service exchange server_url token hostname h).1 ≡ ok identity
      → IsGranted out service exchange server_url token hostname h identity
        × IsRecorded out service identity
            (enroll out service exchange server_url token hostname h).0
  unfolding enroll persist_machine_identity Yields
  enroll_lem exchange server_url token hostname h identity e =
      let after = (enroll out service exchange server_url token hostname h).0 in
      let whole : enroll out service exchange server_url token hostname h ≡ (after, ok identity) =
        ap (λ r. (after, r)) e in
      let (prepared, made, h1) = and_then-ok _ _ after whole in
      let (response, answered, h2) = and_then-ok _ _ after h1 in
      let (_, _, h3) = and_then-ok _ _ after h2 in
      let (_, _, h4) = and_then-ok _ _ after h3 in
      let (_, valid, h5) = and_then-ok _ _ after h4 in
      let (public_key, line, h6) = and_then-ok _ _ after h5 in
      let (loaded, (sent_key, key, request)) =
        prepare_lem server_url token hostname h prepared made in
      let same_key : sent_key ≡ public_key = cc in
      let saved =
        saved-Yields server_url hostname public_key response
          (prepare out service server_url token hostname h).0 identity
          (ap (λ (r : History × Result Error MachineIdentity). r.1) h6) in
      let made_of = saved.0 in
      let own_key : public_key ≡ identity.public_key = ap (λ i. i.public_key) (sym made_of) in
      (
        record {
          keypair = prepared.0;
          response = response;
          loaded = loaded;
          key = line ∙ ap ok own_key;
          answered =
              subst (λ k. exchange (request_with out token hostname k) ≡ ok response)
                (same_key ∙ own_key) (subst (λ q. exchange q ≡ ok response) request answered);
          validated = valid;
          machine_id = ap (λ i. i.machine_id) made_of;
          heartbeat = ap (λ i. i.heartbeat_interval) made_of;
          sync = ap (λ i. i.sync_interval) made_of;
          same_hostname = ap (λ i. i.hostname) made_of;
          same_server = ap (λ i. i.server_url) made_of;
          private_key = ap (λ i. i.private_key_path) made_of;
          public_key_file = ap (λ i. i.public_key_path) made_of;
          enrolled = ap (λ i. i.enrolled_at) made_of;
        },
        subst (IsRecorded out service identity)
            (ap (λ (r : History × Result Error MachineIdentity). r.0) h6) saved.1,
      )

  stored_loads :
      (disk : Disk) (r : MachineRecord) (json : Bytes)
      → disk.lookup service.record_path ≡ new_file out.record_run.uid mode_public (json ++ 10 ∷ [])
      → out.os.readable service.record_path ≡ true
      → out.format.from_slice (json ++ 10 ∷ []) ≡ some r
      → load out.format out.os service.record_path disk ≡ ok r
  unfolding load read_file
  stored_loads disk r json stored readable reads = rw (readable, stored, reads) refl

  stored_enrolled :
      (disk : Disk) (bytes : Bytes)
      → disk.lookup service.record_path ≡ new_file out.record_run.uid mode_public bytes
      → disk.unreadable service.record_path ≡ false
      → is_enrolled out service disk ≡ true
  unfolding is_enrolled is_file
  stored_enrolled disk bytes stored readable = rw (readable, stored) refl

  enrolled_refuses :
      (exchange : EnrollmentRequest → Result Error EnrollmentResponse)
      (server_url token hostname : Text) (h : History)
      → is_enrolled out service h.present ≡ true
      → enroll out service exchange server_url token hostname h ≡ (h, err already_enrolled)
  unfolding enroll prepare and_then
  enrolled_refuses exchange server_url token hostname h e = rw (e, enroll, prepare) refl

  -- After an enrollment that succeeded, while its record can be read: the server has answered the
  -- request with the token, the host name and the public key of the agent's own key pair, the answer
  -- has passed validation, and the identity holds that public key and the answer's id and intervals;
  -- the record on disk reads back as that of the identity; and every further enrollment is refused
  -- and changes nothing. It is assumed that the record's path is not the temporary one and that
  -- serde reads the printed record back.
  pub enroll_once :
      (exchange : EnrollmentRequest → Result Error EnrollmentResponse)
      (server_url token hostname : Text) (identity : MachineIdentity) (h : History)
      → ReadsBack out.format (to_record identity)
      → out.os.readable service.record_path ≡ true
      → let (after, result) = enroll out service exchange server_url token hostname h in
        result ≡ ok identity
        → after.present.unreadable service.record_path ≡ false
        → IsGranted out service exchange server_url token hostname h identity
          × (load out.format out.os service.record_path after.present ≡ ok (to_record identity))
          × ((exchange2 : EnrollmentRequest → Result Error EnrollmentResponse)
                (server_url2 token2 hostname2 : Text)
              → enroll out service exchange2 server_url2 token2 hostname2 after
                ≡ (after, err already_enrolled))
  enroll_once exchange server_url token hostname identity h back readable done seen =
      let (granted, kept) = enroll_lem exchange server_url token hostname h identity done in
      let after = (enroll out service exchange server_url token hostname h).0 in
      (
        granted,
        stored_loads after.present (to_record identity) kept.json kept.stored readable
            (back kept.json kept.printed),
        λ exchange2 server_url2 token2 hostname2.
            enrolled_refuses exchange2 server_url2 token2 hostname2 after
              (stored_enrolled after.present (kept.json ++ 10 ∷ []) kept.stored seen),
      )
