-- ===== src/Identity/Machine.antt =====
-- src/identity/machine.rs: the identity of an enrolled machine and the record of it on disk.
pub mod RoundTrip
use mayfly_agent.Result.{ok, ok_or, ◌>>=◌, ◌>>◌, err, Result}
use mayfly_agent.Errors.{
  machine_record_parse, machine_record_invalid, machine_record_serialize, Error,
}
use mayfly_agent.Security.Store.{read_file, Os}
use mayfly_agent.Security.{mode_public, Disk}
use mayfly_agent.Crates.{Instant, nanos_per_sec}
use mayfly_agent.Security.Write.{Act, Run, secure_write}
use mayfly_agent.Text.Integer.{ℤ}
use mayfly_agent.Protocol.Signing.{unix_timestamp}
use mayfly_agent.Text.Chars.{Bytes, Text}
use mayfly_agent.Prelude.{ℕ, ◌*◌, ◌/◌, Option, none, some, [], ◌∷◌, ◌++◌}

pub record MachineIdentity : Type 0 where
  pub machine_id : Text
  pub hostname : Text
  pub public_key : Text
  pub private_key_path : Text
  pub public_key_path : Text
  pub enrolled_at : Instant
  pub server_url : Text
  pub heartbeat_interval : ℕ
  pub sync_interval : ℕ

pub record MachineRecord : Type 0 where
  pub machine_id : Text
  pub hostname : Text
  pub server_url : Text
  pub heartbeat_interval_secs : ℕ
  pub sync_interval_secs : ℕ
  pub enrolled_at_unix : ℤ

-- serde_json on the record, and `OffsetDateTime::from_unix_timestamp`.
pub record RecordFormat : Type 0 where
  pub to_vec_pretty : MachineRecord → Option Bytes
  pub from_slice : Bytes → Option MachineRecord
  pub from_unix_timestamp : ℤ → Option Instant

-- `Duration::from_secs` and `as_secs`; a duration is its nanoseconds.
abbrev pub from_secs : ℕ → ℕ
from_secs secs = secs * nanos_per_sec

abbrev pub as_secs : ℕ → ℕ
as_secs duration = duration / nanos_per_sec

unfoldable pub load : RecordFormat → Os → Text → Disk → Result Error MachineRecord
load format os path disk = do
  bytes ← read_file os path disk
  ok_or machine_record_parse (format.from_slice bytes)

abbrev pub write_json : Run → Text → Option Bytes → Act
write_json run path none h = (h, err machine_record_serialize)
write_json run path (some json) h = secure_write run path (json ++ 10 ∷ []) mode_public h

unfoldable pub save : RecordFormat → Run → MachineRecord → Text → Act
save format run r path = write_json run path (format.to_vec_pretty r)

unfoldable pub into_identity :
    RecordFormat → MachineRecord → Text → Text → Text → Result Error MachineIdentity
into_identity format r public_key private_key_path public_key_path = do
  enrolled_at ← ok_or machine_record_invalid (format.from_unix_timestamp r.enrolled_at_unix)
  ok (record {
    machine_id = r.machine_id;
    hostname = r.hostname;
    public_key = public_key;
    private_key_path = private_key_path;
    public_key_path = public_key_path;
    enrolled_at = enrolled_at;
    server_url = r.server_url;
    heartbeat_interval = from_secs r.heartbeat_interval_secs;
    sync_interval = from_secs r.sync_interval_secs;
  })

unfoldable pub to_record : MachineIdentity → MachineRecord
to_record identity = record {
  machine_id = identity.machine_id;
  hostname = identity.hostname;
  server_url = identity.server_url;
  heartbeat_interval_secs = as_secs identity.heartbeat_interval;
  sync_interval_secs = as_secs identity.sync_interval;
  enrolled_at_unix = unix_timestamp identity.enrolled_at;
}
