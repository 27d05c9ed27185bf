-- ===== src/Tests/Ipc.antt =====
-- A call of the helper, and instances of the theorems on frames and answers.
use mayfly_agent.Ipc.Client.Outcomes.{apply_bundle_sound, IsRolledBack}
use mayfly_agent.Protocol.CaSync.Service.{BundleApplyOutcome}
use mayfly_agent.Ipc.Protocol.Framing.{read_frame-write_frame, read_frame_bounded}
use mayfly_agent.Ipc.Protocol.{
  apply_request, read_frame, from_be_bytes, read_exact, max_body_bytes, to_be_bytes, write_frame,
  write_all, Writer, Response, rolled_back,
}
use mayfly_agent.Result.{ok}
use mayfly_agent.Text.Chars.{text_eq, Bytes, codes}
use mayfly_agent.Ipc.Client.{call, apply_bundle, HelperClient}
use mayfly_agent.Prelude.{◌+◌, ◌≤◌, ◌≡◌, refl, ◌⊎◌, true, false, none, some, [], ◌∷◌, ◌++◌, length}

abbrev body : Bytes
body = codes "{}"

abbrev writer : Writer
writer = record { sent = []; room = 100; can_flush = true }

abbrev frame : Bytes
frame = 0 ∷ 0 ∷ 0 ∷ 2 ∷ body

abbrev after : Writer
after = record { sent = frame; room = 94; can_flush = true }

frame_written : write_frame body writer ≡ (after, ok tt)
unfolding write_frame write_all to_be_bytes
frame_written = refl

read_frame-write_frame_example :
    (sent : Bytes) × (after.sent ≡ writer.sent ++ sent)
    × (read_frame (sent ++ codes "next") ≡ ok (body, codes "next"))
read_frame-write_frame_example =
    read_frame-write_frame body (codes "next") writer after frame_written

frame_read : read_frame (frame ++ codes "next") ≡ ok (body, codes "next")
unfolding read_frame read_exact from_be_bytes
frame_read = refl

read_frame_bounded_example :
    (length body ≤ max_body_bytes)
    × (4 + length body + length (codes "next") ≡ length (frame ++ codes "next"))
read_frame_bounded_example =
    read_frame_bounded (frame ++ codes "next") body (codes "next") frame_read

abbrev refusal : Response
refusal = record {
  is_ok = false;
  outcome = rolled_back;
  helper_version = none;
  detail = some (codes "sshd -t failed");
}

abbrev client : HelperClient
client = record {
  token = codes "secret";
  connect = some writer;
  set_timeouts = true;
  reply = λ sent. frame;
  encode_request = λ request. some body;
  decode_response = λ bytes. some refusal;
}

restored : apply_bundle client (codes "# keys\n") ≡ ok BundleApplyOutcome.rolled_back
unfolding apply_bundle call write_frame write_all to_be_bytes read_frame read_exact from_be_bytes
    text_eq
restored = refl

apply_bundle_sound_example :
    (resp : Response) × ((call client (apply_request client.token (codes "# keys\n")) ≡ ok resp)
      × (((BundleApplyOutcome.rolled_back ≡ BundleApplyOutcome.applied) × (resp.is_ok ≡ true))
          ⊎ ((BundleApplyOutcome.rolled_back ≡ BundleApplyOutcome.rolled_back)
              × IsRolledBack resp)))
apply_bundle_sound_example =
    apply_bundle_sound client (codes "# keys\n") BundleApplyOutcome.rolled_back restored
