-- ===== src/Protocol/Http.antt =====
-- src/protocol/heartbeat.rs: requests and responses, shared with src/protocol/ca_sync.rs.
use mayfly_agent.Text.Trim.{trim_end_matches}
use mayfly_agent.Prelude.{ℕ, Bool, ◌&&◌, List, ◌++◌, ltb, leb}
use mayfly_agent.Text.Chars.{Text, Bytes}

pub record HttpRequest : Type 0 where
  pub url : Text
  pub headers : List (Text × Text)
  pub body : Bytes

pub record HttpResponse : Type 0 where
  pub status : ℕ
  pub body : Bytes

-- `(200..300).contains(&status)`.
abbrev pub is_success : ℕ → Bool
is_success status = leb 200 status && ltb status 300

unfoldable pub join_url : Text → Text → Text
join_url base path = trim_end_matches b'/' base ++ path
