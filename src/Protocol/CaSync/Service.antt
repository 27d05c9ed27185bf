-- ===== src/Protocol/CaSync/Service.antt =====
-- src/protocol/ca_sync.rs: the service, its reports and outcomes, and the state files.
use mayfly_agent.Identity.Keypair.{MachineKeypair}
use mayfly_agent.Protocol.Http.{HttpResponse, HttpRequest}
use mayfly_agent.Prelude.{ℕ, Bool, Option, some}
use mayfly_agent.Text.Chars.{Text, Bytes, codes}
use mayfly_agent.Result.{Result}
use mayfly_agent.Errors.{Error}
use mayfly_agent.Crates.{Instant}
use mayfly_agent.Bundle.Types.{CaBundleResponse}

abbrev pub status_not_modified : ℕ
status_not_modified = 304

pub data BundleApplyOutcome : Type 0 where
  applied rolled_back : BundleApplyOutcome

abbrev pub ack_status_applied : Text
ack_status_applied = codes "applied"

abbrev pub ack_status_rollback : Text
ack_status_rollback = codes "rollback"

abbrev pub ack_rollback_reason : Text
ack_rollback_reason = codes "sshd apply failed; previous bundle restored"

pub record AckReport : Type 0 where
  pub generation : ℕ
  pub fingerprint : Text
  pub status : Text
  pub reason : Option Text

pub data SyncOutcome : Type 0 where
  not_modified : ℕ → SyncOutcome
  unchanged : ℕ → SyncOutcome
  updated : ℕ → Text → Bool → SyncOutcome

pub record PersistedState : Type 0 where
  pub generation : Option ℕ
  pub fingerprint : Option Text
  pub signing_key : Option Text

-- The state files, by the names of their paths.
pub data Slot : Type 0 where
  generation_path fingerprint_path signing_key_path last_sync_path last_success_path : Slot

pub record Files : Type 0 where
  pub generation : Option Bytes
  pub fingerprint : Option Bytes
  pub signing_key : Option Bytes
  pub last_sync : Option Bytes
  pub last_success : Option Bytes

-- The moments of a pass at which the clock or a file is read.
pub data Moment : Type 0 where
  at_load at_fetch at_contact at_validation at_pin at_success at_acknowledge : Moment

-- How a `secure_write` ends. Where the last `fsync` fails, the file is in place and the call fails.
pub data WriteFate : Type 0 where
  written lost unsynced : WriteFate

-- The fields of `CaSyncService`, and what one pass meets outside: the answers of server and helper,
-- the clock, the nonces, serde's conversions, and which reads and writes the file system serves. A
-- pass writes each file at most once.
pub record CaSyncService : Type 0 where
  pub get : HttpRequest → Result Error HttpResponse
  pub post : HttpRequest → Result Error HttpResponse
  pub apply_keys : Text → Result Error BundleApplyOutcome
  pub now : Moment → Instant
  pub nonce : Moment → Text
  pub bundle_from_json : Bytes → Option CaBundleResponse
  pub report_to_json : AckReport → Option Bytes
  pub can_read : Moment → Slot → Bool
  pub fate : Slot → WriteFate
  pub keypair : MachineKeypair
  pub machine_id : Text
  pub server_url : Text
  pub pinned_signing_key : Option Text

abbrev pub content : Slot → Files → Option Bytes
content generation_path files = files.generation
content fingerprint_path files = files.fingerprint
content signing_key_path files = files.signing_key
content last_sync_path files = files.last_sync
content last_success_path files = files.last_success

abbrev pub put : Slot → Bytes → Files → Files
put generation_path bytes files = record files { generation = some bytes }
put fingerprint_path bytes files = record files { fingerprint = some bytes }
put signing_key_path bytes files = record files { signing_key = some bytes }
put last_sync_path bytes files = record files { last_sync = some bytes }
put last_success_path bytes files = record files { last_success = some bytes }
