-- ===== src/Protocol/Heartbeat.antt =====
-- src/protocol/heartbeat.rs: the heartbeat client. The transport and the JSON of serde are
-- parameters.
pub mod Sent
use mayfly_agent.Errors.{heartbeat_rejected, invalid_heartbeat_response, request_signing, Error}
use mayfly_agent.Result.{ok, reject_if, ok_or, ◌>>◌, ◌>>=◌, Result}
use mayfly_agent.Protocol.Http.{is_success, HttpResponse, join_url, HttpRequest}
use mayfly_agent.Protocol.Signing.{unix_timestamp, signing_headers, sign_request, SignedHeaders}
use mayfly_agent.Text.Trim.{trim}
use mayfly_agent.Identity.Keypair.{MachineKeypair}
use mayfly_agent.Crates.{Instant, Crates}
use mayfly_agent.Prelude.{ℕ, not, ◌&&◌, Option, List, ◌∷◌, leb, is_empty}
use mayfly_agent.Text.Chars.{Text, Bytes, codes}

abbrev pub heartbeat_path : Text
heartbeat_path = codes "/api/v1/agent/heartbeat"

abbrev pub min_next_heartbeat_secs : ℕ
min_next_heartbeat_secs = 1

abbrev pub max_next_heartbeat_secs : ℕ
max_next_heartbeat_secs = 86_400

pub record HeartbeatRequest : Type 0 where
  pub agent_version : Text
  pub hostname : Text
  pub kernel_os : Text
  pub kernel : Text
  pub ip : Text
  pub current_generation : ℕ
  pub uptime_seconds : ℕ

pub record HeartbeatResponse : Type 0 where
  pub status : Text
  pub server_time : Text
  pub next_heartbeat_seconds : ℕ

-- What the client is given, and what it meets when it sends one heartbeat: the transport's answer
-- to each request, the clock, the random nonce, and serde's two conversions.
pub record HeartbeatClient : Type 0 where
  pub post : HttpRequest → Result Error HttpResponse
  pub now : Instant
  pub nonce : Text
  pub to_json : HeartbeatRequest → Option Bytes
  pub from_json : Bytes → Option HeartbeatResponse
  pub machine_id : Text
  pub keypair : MachineKeypair
  pub server_url : Text

unfoldable pub build_headers : SignedHeaders → List (Text × Text)
build_headers signed = (codes "content-type", codes "application/json") ∷ signing_headers signed

unfoldable pub validate_response : HeartbeatResponse → Result Error (Unit {0})
validate_response response = do
  reject_if (is_empty (trim response.status)) invalid_heartbeat_response
  reject_if
      (not (
        leb min_next_heartbeat_secs response.next_heartbeat_seconds
        && leb response.next_heartbeat_seconds max_next_heartbeat_secs))
      invalid_heartbeat_response
  reject_if (is_empty (trim response.server_time)) invalid_heartbeat_response
  ok tt

-- The request for a serialised heartbeat.
unfoldable pub heartbeat_request : HeartbeatClient → Bytes → SignedHeaders → HttpRequest
heartbeat_request client body signed = record {
  url = join_url client.server_url heartbeat_path;
  headers = build_headers signed;
  body = body;
}

unfoldable pub send_heartbeat :
    Crates → HeartbeatClient → HeartbeatRequest → Result Error HeartbeatResponse
send_heartbeat lib client request = do
  body ← ok_or request_signing (client.to_json request)
  signed ←
      sign_request lib client.keypair client.machine_id (unix_timestamp client.now) client.nonce
        (codes "POST") heartbeat_path body
  response ← client.post (heartbeat_request client body signed)
  reject_if (not (is_success response.status)) heartbeat_rejected
  parsed ← ok_or invalid_heartbeat_response (client.from_json response.body)
  validate_response parsed
  ok parsed
