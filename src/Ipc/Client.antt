-- ===== src/Ipc/Client.antt =====
-- src/ipc/client.rs: calls of the helper and the reading of its answers.
pub mod Outcomes
use mayfly_agent.Ipc.Protocol.{
  rolled_back, ping, install_sshd_dropin, apply_request, new_request, Request, Response, Outcome,
  Operation, Writer, write_frame, read_frame,
}
use mayfly_agent.Errors.{
  helper_protocol, helper_operation_failed, helper_unavailable, io, helper_unauthenticated, Error,
}
use mayfly_agent.Result.{reject_if, ok_or, ok, err, ◌>>=◌, ◌>>◌, Result}
use mayfly_agent.Text.Trim.{trim}
use mayfly_agent.Protocol.CaSync.Service.{BundleApplyOutcome}
use mayfly_agent.Prelude.{Bool, true, false, not, Option, none, some, if◌then◌else◌}
use mayfly_agent.Text.Chars.{Text, Bytes, codes, text_eq}

-- The token, the socket and serde: whether the socket connects and takes its time-outs, the stream
-- it gives to write on, what the peer answers to the bytes sent, and the JSON conversions.
pub record HelperClient : Type 0 where
  pub token : Text
  pub connect : Option Writer
  pub set_timeouts : Bool
  pub reply : Bytes → Bytes
  pub encode_request : Request → Option Bytes
  pub decode_response : Bytes → Option Response

-- `from_paths`: the token is the trimmed content of its file.
abbrev pub token_of_file : Option Text → Result Error Text
token_of_file none = err io
token_of_file (some contents) = ok (trim contents)

-- The request on the wire: what the peer has received when all went well.
unfoldable pub send_request : Bytes → Writer → Result Error Bytes
send_request body writer = let after = write_frame body writer in do after.1; ok after.0.sent

unfoldable pub call : HelperClient → Request → Result Error Response
unfolding send_request
call client request = do
  stream ← ok_or helper_unavailable client.connect
  reject_if (not client.set_timeouts) helper_unavailable
  body ← ok_or helper_protocol (client.encode_request request)
  sent ← send_request body stream
  response_body ← read_frame (client.reply sent)
  ok_or helper_protocol (client.decode_response response_body.0)

abbrev pub is_unauthenticated : Option Text → Bool
is_unauthenticated none = false
is_unauthenticated (some detail) = text_eq detail (codes "unauthenticated")

abbrev pub is_rolled_back : Outcome → Bool
is_rolled_back rolled_back = true
is_rolled_back _ = false

unfoldable pub check_ok : Response → Result Error Outcome
check_ok resp =
    if resp.is_ok
    then ok resp.outcome
    else if is_unauthenticated resp.detail
    then err helper_unauthenticated
    else err helper_operation_failed

unfoldable pub ping_helper : HelperClient → Result Error Text
ping_helper client = do
  resp ← call client (new_request client.token ping)
  check_ok resp
  ok_or helper_operation_failed resp.helper_version

-- `ensure_directories` and `verify_state`.
unfoldable pub run_operation : HelperClient → Operation → Result Error (Unit {0})
run_operation client op = do resp ← call client (new_request client.token op); check_ok resp; ok tt

unfoldable pub install_dropin : HelperClient → Result Error Outcome
install_dropin client = do
  resp ← call client (new_request client.token install_sshd_dropin)
  check_ok resp

unfoldable pub apply_keys : HelperClient → Text → Result Error Outcome
apply_keys client content = do
  resp ← call client (apply_request client.token content)
  check_ok resp

-- The mapping of `apply_bundle`.
unfoldable pub bundle_outcome : Response → Result Error BundleApplyOutcome
bundle_outcome resp =
    if resp.is_ok
    then ok BundleApplyOutcome.applied
    else if is_unauthenticated resp.detail
    then err helper_unauthenticated
    else if is_rolled_back resp.outcome
    then ok BundleApplyOutcome.rolled_back
    else err helper_operation_failed

unfoldable pub apply_bundle : HelperClient → Text → Result Error BundleApplyOutcome
unfolding bundle_outcome
apply_bundle client content = do
  resp ← call client (apply_request client.token content)
  bundle_outcome resp
