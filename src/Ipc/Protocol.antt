-- ===== src/Ipc/Protocol.antt =====
-- src/ipc/protocol.rs: messages and framing. Serde's JSON is a parameter of the client.
pub mod Framing
use mayfly_agent.Errors.{helper_protocol, helper_unavailable, Error}
use mayfly_agent.Result.{reject_if, ok, err, ◌>>=◌, ◌>>◌, Result}
use mayfly_agent.Prelude.{
  ℕ, ◌+◌, ◌-◌, ◌*◌, ◌/◌, ◌%◌, ◌^◌, Bool, true, false, Option, none, some, [], ◌∷◌, ◌++◌, ltb, leb,
  if◌then◌else◌, length, take, drop,
}
use mayfly_agent.Text.Chars.{Text, Bytes, codes}

abbrev pub protocol_version : ℕ
protocol_version = 1

abbrev pub max_body_bytes : ℕ
max_body_bytes = 1024 * 1024

pub data Operation : Type 0 where
  ping ensure_directories install_sshd_dropin apply_trusted_ca_keys verify_state : Operation

pub record Request : Type 0 where
  pub protocol_version : ℕ
  pub token : Text
  pub op : Operation
  pub content : Option Text

abbrev pub new_request : Text → Operation → Request
new_request token op = record {
  protocol_version = protocol_version;
  token = token;
  op = op;
  content = none;
}

abbrev pub apply_request : Text → Text → Request
apply_request token content = record {
  protocol_version = protocol_version;
  token = token;
  op = apply_trusted_ca_keys;
  content = some content;
}

pub data Outcome : Type 0 where
  done applied rolled_back not_modified unhealthy : Outcome

pub record Response : Type 0 where
  pub is_ok : Bool
  pub outcome : Outcome
  pub helper_version : Option Text
  pub detail : Option Text

abbrev pub response_success : Outcome → Response
response_success outcome = record {
  is_ok = true;
  outcome = outcome;
  helper_version = none;
  detail = none;
}

abbrev pub response_failure : Outcome → Text → Response
response_failure outcome detail = record {
  is_ok = false;
  outcome = outcome;
  helper_version = none;
  detail = some detail;
}

-- A writer takes bytes until its room is used up, and then every write fails; `flush` may fail.
pub record Writer : Type 0 where
  pub sent : Bytes
  pub room : ℕ
  pub can_flush : Bool

-- `write_all`: on failure, what fitted has been sent.
unfoldable pub write_all : Bytes → Writer → Writer × Result Error (Unit {0})
write_all bytes writer =
    if leb (length bytes) writer.room
    then (record writer { sent = writer.sent ++ bytes; room = writer.room - length bytes }, ok tt)
    else (
      record writer { sent = writer.sent ++ take writer.room bytes; room = 0 },
      err helper_unavailable,
    )

abbrev pub flush : Writer → Writer × Result Error (Unit {0})
flush writer = (writer, if writer.can_flush then ok tt else err helper_unavailable)

-- `u32::to_be_bytes` and `u32::from_be_bytes`.
unfoldable pub to_be_bytes : ℕ → Bytes
to_be_bytes n = n / 0x1000000 % 256 ∷ n / 0x10000 % 256 ∷ n / 0x100 % 256 ∷ n % 256 ∷ []

unfoldable pub from_be_bytes : Bytes → ℕ
from_be_bytes [] = 0
from_be_bytes (b ∷ bytes) = b * 256 ^ length bytes + from_be_bytes bytes

abbrev pub then_write :
    Writer × Result Error (Unit {0})
    → (Writer → Writer × Result Error (Unit {0}))
    → Writer × Result Error (Unit {0})
then_write (writer, ok a) k = k writer
then_write (writer, err e) k = (writer, err e)

unfoldable pub write_frame : Bytes → Writer → Writer × Result Error (Unit {0})
write_frame body writer =
    if ltb max_body_bytes (length body)
    then (writer, err helper_protocol)
    else if leb (2 ^ 32) (length body)
    then (writer, err helper_protocol)
    else then_write (write_all (to_be_bytes (length body)) writer)
        (λ (w : Writer). then_write (write_all body w) flush)

-- `read_exact`: the bytes and what is left of the stream.
unfoldable pub read_exact : ℕ → Bytes → Result Error (Bytes × Bytes)
read_exact n stream =
    if leb n (length stream) then ok (take n stream, drop n stream) else err helper_unavailable

unfoldable pub read_frame : Bytes → Result Error (Bytes × Bytes)
read_frame stream = do
  head ← read_exact 4 stream
  let len = from_be_bytes head.0
  reject_if (ltb max_body_bytes len) helper_protocol
  read_exact len head.1
