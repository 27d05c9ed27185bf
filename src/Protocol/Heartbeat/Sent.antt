-- ===== src/Protocol/Heartbeat/Sent.antt =====
-- What a heartbeat that succeeds went through.
use mayfly_agent.Text.Utf8.{as_bytes}
use mayfly_agent.Protocol.Http.{join_url, HttpRequest, is_success, HttpResponse}
use mayfly_agent.Text.Integer.{print_int}
use mayfly_agent.Protocol.Signing.{
  signing_headers, body_sha256_hex, canonical_string, unix_timestamp, sign_request, SignedHeaders,
}
use mayfly_agent.Protocol.Heartbeat.{
  build_headers, heartbeat_request, heartbeat_path, HeartbeatRequest, HeartbeatClient,
  HeartbeatResponse, send_heartbeat, validate_response,
}
use mayfly_agent.Identity.Keypair.{sign}
use mayfly_agent.Text.Chars.{Text, Bytes, codes}
use mathlib.Core.Path.{subst}
use mayfly_agent.Result.{map_err, err, Result, ok_or-eq-ok, reject_if, both_ok, ok_or, first_ok, ok}
use mayfly_agent.Errors.{
  key_parse, Error, invalid_heartbeat_response, heartbeat_rejected, request_signing,
}
use mayfly_agent.Prelude.{
  ◌≤◌, ◌<◌, ◌≡◌, refl, sym, ap, ◌∙◌, false, not, some, List, [], ◌∷◌, ◌++◌, arith, is_empty,
}
use mayfly_agent.Text.Trim.{trim}
use mayfly_agent.Crates.{Crates}

-- One line after the other, without a line feed at the end.
pub join_lines : List Text → Text
join_lines [] = []
join_lines (line ∷ []) = line
join_lines (line ∷ lines) = line ++ 10 ∷ join_lines lines

-- The text that a heartbeat with this body signs.
abbrev pub signed_text : Crates → HeartbeatClient → Bytes → Text
signed_text lib client body = join_lines (
    codes "mayfly-agent-auth-v1"
    ∷ client.machine_id
    ∷ print_int (unix_timestamp client.now)
    ∷ client.nonce
    ∷ codes "POST"
    ∷ codes "/api/v1/agent/heartbeat"
    ∷ lib.hex_encode (lib.sha256 body)
    ∷ [])

-- The request that signs this body with the private key of this seed.
abbrev pub signed_post : Crates → HeartbeatClient → Bytes → Bytes → HttpRequest
signed_post lib client seed body = record {
  url = join_url client.server_url (codes "/api/v1/agent/heartbeat");
  headers =
      (codes "content-type", codes "application/json")
      ∷ (codes "X-Mayfly-Machine-Id", client.machine_id)
      ∷ (codes "X-Mayfly-Timestamp", print_int (unix_timestamp client.now))
      ∷ (codes "X-Mayfly-Nonce", client.nonce)
      ∷ (
        codes "X-Mayfly-Signature",
        lib.base64_encode (lib.ed25519_sign seed (as_bytes (signed_text lib client body))),
      )
      ∷ [];
  body = body;
}

-- The request that was sent carries the heartbeat and a signature over this body, the server
-- answered it with a success, and its answer is in range.
pub record IsAnswered (lib : Crates) (client : HeartbeatClient) (request : HeartbeatRequest)
    (parsed : HeartbeatResponse) : Type 0 where
  pub body : Bytes
  pub seed : Bytes
  pub response : HttpResponse
  pub serialised : client.to_json request ≡ some body
  pub key : client.keypair.seed ≡ some seed
  pub sent : client.post (signed_post lib client seed body) ≡ ok response
  pub status : (200 ≤ response.status) × (response.status < 300)
  pub read : client.from_json response.body ≡ some parsed
  pub interval : (1 ≤ parsed.next_heartbeat_seconds) × (parsed.next_heartbeat_seconds ≤ 86_400)
  pub has_status : is_empty (trim parsed.status) ≡ false
  pub has_time : is_empty (trim parsed.server_time) ≡ false

mapped-ok :
    {A : Type 0} (e : Error) (r : Result Error A) {a : A} → map_err (λ _. e) r ≡ ok a → r ≡ ok a
mapped-ok e (ok b) h = h
mapped-ok e (err f) h = absurd (cc)

-- Signing this body gives this request.
signed-post :
    (lib : Crates) (client : HeartbeatClient) (body : Bytes) (signed : SignedHeaders)
    → sign_request lib client.keypair client.machine_id
        (unix_timestamp client.now)
        client.nonce
        (codes "POST")
        heartbeat_path
        body
      ≡ ok signed
    → (seed : Bytes) × (client.keypair.seed ≡ some seed)
      × (heartbeat_request client body signed ≡ signed_post lib client seed body)
unfolding sign_request sign heartbeat_request build_headers signing_headers canonical_string
    body_sha256_hex join_lines
signed-post lib client body signed h =
    let canonical = signed_text lib client body in
    let (signature, (h1, made)) =
      first_ok (map_err (λ _. request_signing) (sign lib client.keypair (as_bytes canonical))) _
        h in
    let (seed, (h2, found)) =
      first_ok (ok_or key_parse client.keypair.seed) _
        (mapped-ok request_signing (sign lib client.keypair (as_bytes canonical)) made) in
    let bytes : lib.ed25519_sign seed (as_bytes canonical) ≡ signature = cc in
    let headers : record {
      machine_id = client.machine_id;
      timestamp = unix_timestamp client.now;
      nonce = client.nonce;
      signature = lib.base64_encode signature;
    }
        ≡ signed =
      cc in
    (seed, ok_or-eq-ok key_parse client.keypair.seed found, rw (sym headers, sym bytes) refl)

validate_response_gates :
    (r : HeartbeatResponse)
    → validate_response r ≡ ok tt
    → (is_empty (trim r.status) ≡ false)
      × (1 ≤ r.next_heartbeat_seconds)
      × (r.next_heartbeat_seconds ≤ 86_400)
      × (is_empty (trim r.server_time) ≡ false)
unfolding validate_response
validate_response_gates r h = ground arith

-- A heartbeat that succeeds was sent as a POST of its serialised form, whose signature header is
-- that of the machine's key over domain, machine, time, nonce, method, path and the hash of exactly
-- the body that was sent, each on a line; the headers carry the same machine, time and nonce. The
-- server answered it with a 2xx status, and the next heartbeat is 1 to 86400 seconds away.
pub send_heartbeat_sound :
    (lib : Crates) (client : HeartbeatClient) (request : HeartbeatRequest)
    (parsed : HeartbeatResponse)
    → send_heartbeat lib client request ≡ ok parsed
    → IsAnswered lib client request parsed
unfolding send_heartbeat
send_heartbeat_sound lib client request parsed h =
    let (body, (h1, serialised)) = first_ok (ok_or request_signing (client.to_json request)) _ h in
    let (signed, (h2, is_signed)) =
      first_ok
        (sign_request lib client.keypair client.machine_id (unix_timestamp client.now) client.nonce
          (codes "POST") heartbeat_path body)
        _ h1 in
    let (seed, key, post) = signed-post lib client body signed is_signed in
    let (response, (h3, sent)) =
      first_ok (client.post (heartbeat_request client body signed)) _ h2 in
    let (_, h4) = both_ok (reject_if (not (is_success response.status)) heartbeat_rejected) _ h3 in
    let (read_back, (h5, read)) =
      first_ok (ok_or invalid_heartbeat_response (client.from_json response.body)) _ h4 in
    let (_, h6) = both_ok (validate_response read_back) _ h5 in
    let same : read_back ≡ parsed = cc in
    let (has_status, low, high, has_time) = validate_response_gates read_back (ground arith) in
    record {
      body = body;
      seed = seed;
      response = response;
      serialised = ok_or-eq-ok request_signing (client.to_json request) serialised;
      key = key;
      sent = subst (λ q. client.post q ≡ ok response) post sent;
      status = ground arith;
      read =
          ok_or-eq-ok invalid_heartbeat_response (client.from_json response.body) read
          ∙ ap some same;
      interval = rw⁻¹ same (low, high);
      has_status = rw⁻¹ same has_status;
      has_time = rw⁻¹ same has_time;
    }
