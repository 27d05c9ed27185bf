-- ===== src/Identity/ApiClient.antt =====
-- src/identity/api_client.rs: the enrollment exchange over HTTP. The last response is what the
-- exchange returned when it succeeded.
use mayfly_agent.Errors.{enrollment_rejected, enrollment_transport, Error}
use mayfly_agent.Protocol.Http.{is_success, join_url, HttpResponse}
use mayfly_agent.Result.{reject_if, ok_or, ◌>>◌, ◌>>=◌, Result}
use mayfly_agent.Identity.Enrollment.{EnrollmentResponse, EnrollmentRequest}
use mayfly_agent.Text.Chars.{Bytes, codes, Text}
use mayfly_agent.Prelude.{not, Option}

abbrev pub enroll_path : Text
enroll_path = codes "/api/v1/machines/enroll"

-- The transport of the client and serde's conversions.
pub record HttpEnrollmentClient : Type 0 where
  pub post_json : Text → Bytes → Result Error HttpResponse
  pub request_to_json : EnrollmentRequest → Option Bytes
  pub response_from_json : Bytes → Option EnrollmentResponse
  pub server_url : Text

unfoldable pub exchange : HttpEnrollmentClient → EnrollmentRequest → Result Error EnrollmentResponse
exchange client request = do
  body ← ok_or enrollment_transport (client.request_to_json request)
  response ← client.post_json (join_url client.server_url enroll_path) body
  reject_if (not (is_success response.status)) enrollment_rejected
  ok_or enrollment_rejected (client.response_from_json response.body)
