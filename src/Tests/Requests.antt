-- ===== src/Tests/Requests.antt =====
-- Instances of the theorems on signed requests and the heartbeat.
use mayfly_agent.Result.{ok}
use mayfly_agent.Protocol.Heartbeat.Sent.{send_heartbeat_sound, IsAnswered}
use mayfly_agent.Text.Integer.{pos, ℤ}
use mayfly_agent.Identity.Keypair.{sign, MachineKeypair}
use mayfly_agent.Protocol.Heartbeat.{
  HeartbeatClient, validate_response, HeartbeatResponse, HeartbeatRequest, send_heartbeat,
}
use mayfly_agent.Text.Trim.{trim, trim_end, trim_start}
use mayfly_agent.Protocol.Signing.Canonical.{canonical_string_inj}
use mayfly_agent.Text.Chars.{is_whitespace, codes}
use mayfly_agent.Protocol.Signing.{sign_request}
use mayfly_agent.Prelude.{◌≡◌, refl, some, [], ◌∷◌}
use mayfly_agent.Tests.Toy.{toy, five_seconds}

abbrev stamp : ℤ
stamp = pos 5

canonical_string_inj_example :
    (codes "m" ≡ codes "m")
    × (stamp ≡ stamp)
    × (codes "n" ≡ codes "n")
    × (codes "POST" ≡ codes "POST")
    × (codes "/p" ≡ codes "/p")
    × (codes "ab" ≡ codes "ab")
canonical_string_inj_example =
    canonical_string_inj (codes "m") (codes "m") stamp stamp (codes "n") (codes "n") (codes "POST")
      (codes "POST") (codes "/p") (codes "/p") (codes "ab") (codes "ab") (refl, refl) (refl, refl)
      (refl, refl) (refl, refl) refl

abbrev pub toy_keypair : MachineKeypair
toy_keypair = record { seed = some (1 ∷ 2 ∷ []) }

abbrev answer : HeartbeatResponse
answer = record { status = codes "ok"; server_time = codes "now"; next_heartbeat_seconds = 60 }

abbrev pub client : HeartbeatClient
client = record {
  post = λ request. ok (record { status = 204; body = [] });
  now = five_seconds;
  nonce = codes "n";
  to_json = λ request. some (codes "{}");
  from_json = λ bytes. some answer;
  machine_id = codes "m";
  keypair = toy_keypair;
  server_url = codes "https://mayfly/";
}

abbrev beat : HeartbeatRequest
beat = record {
  agent_version = codes "0.1.0";
  hostname = codes "h";
  kernel_os = codes "linux";
  kernel = codes "6";
  ip = codes "::1";
  current_generation = 3;
  uptime_seconds = 9;
}

answered : send_heartbeat toy client beat ≡ ok answer
unfolding send_heartbeat sign_request sign validate_response trim trim_start trim_end is_whitespace
answered = refl

send_heartbeat_sound_example : IsAnswered toy client beat answer
send_heartbeat_sound_example = send_heartbeat_sound toy client beat answer answered
