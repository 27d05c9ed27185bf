-- ===== src/Identity/Machine/RoundTrip.antt =====
-- The record of an identity, written and read back.
use mayfly_agent.Result.{ok}
use mayfly_agent.Protocol.Signing.{unix_timestamp}
use mayfly_agent.Text.Chars.{Bytes}
use mayfly_agent.Identity.Machine.{
  MachineRecord, MachineIdentity, from_secs, as_secs, RecordFormat, to_record, into_identity,
}
use mayfly_agent.Prelude.{ℕ, ◌≡◌, refl, some, [], ◌∷◌, ◌++◌, arith}

-- serde_json reads what it has printed, white space after it or not.
abbrev pub ReadsBack : RecordFormat → MachineRecord → Type 0
ReadsBack format r =
    (json : Bytes)
    → format.to_vec_pretty r ≡ some json
    → format.from_slice (json ++ 10 ∷ []) ≡ some r

as_secs-from_secs : (secs : ℕ) → as_secs (from_secs secs) ≡ secs
as_secs-from_secs secs = ground arith

-- An identity whose intervals are whole seconds comes back from its record, with the second of its
-- enrollment in place of the instant.
pub into_identity-to_record :
    (format : RecordFormat) (i : MachineIdentity) (heartbeat sync second : ℕ)
    → i.heartbeat_interval ≡ from_secs heartbeat
    → i.sync_interval ≡ from_secs sync
    → format.from_unix_timestamp (unix_timestamp i.enrolled_at) ≡ some second
    → into_identity format (to_record i) i.public_key i.private_key_path i.public_key_path
      ≡ ok (record i { enrolled_at = second })
unfolding into_identity to_record
into_identity-to_record format i heartbeat sync second h s t =
    let beats : from_secs (as_secs i.heartbeat_interval) ≡ i.heartbeat_interval = ground arith in
    let syncs : from_secs (as_secs i.sync_interval) ≡ i.sync_interval = ground arith in
    rw (t, beats, syncs) refl
