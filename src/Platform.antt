-- ===== src/Platform.antt =====
-- src/platform/linux.rs and src/platform/systemd.rs: what the agent reads of the host. The answers of
-- the operating system are given.
use mayfly_agent.Security.Store.{is_dir, Os}
use mayfly_agent.Errors.{not_root, Error}
use mayfly_agent.Result.{err, ok, Result}
use mayfly_agent.Security.{Disk}
use mayfly_agent.Text.Chars.{codes, Text}
use mayfly_agent.Config.{unwrap_or}
use mayfly_agent.Prelude.{Bool, ◌&&◌, Option, none, some, ◌==◌, if◌then◌else◌}

-- `uname`, the constants of the build, and the source address of a UDP socket that is bound and
-- connected, as text, with whether it is unspecified.
pub record Host : Type 0 where
  pub nodename : Text
  pub release : Text
  pub os : Text
  pub arch : Text
  pub bind : Bool
  pub connect : Bool
  pub local_addr : Option (Bool × Text)

pub record HostFacts : Type 0 where
  pub hostname : Text
  pub os : Text
  pub kernel : Text
  pub arch : Text
  pub ip : Text

abbrev pub specified : Option (Bool × Text) → Option Text
specified none = none
specified (some (is_unspecified, ip)) = if is_unspecified then none else some ip

unfoldable pub local_ip : Host → Option Text
local_ip host = if host.bind && host.connect then specified host.local_addr else none

unfoldable pub host_facts : Host → HostFacts
host_facts host = record {
  hostname = host.nodename;
  os = host.os;
  kernel = host.release;
  arch = host.arch;
  ip = unwrap_or (codes "0.0.0.0") (local_ip host);
}

unfoldable pub validate_root : Os → Result Error (Unit {0})
validate_root os = if os.effective_uid == 0 then ok tt else err not_root

unfoldable pub is_systemd : Os → Disk → Bool
is_systemd os disk = is_dir os disk (codes "/run/systemd/system")
