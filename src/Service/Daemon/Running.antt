-- ===== src/Service/Daemon/Running.antt =====
-- What the status file says while the daemon runs.
use mayfly_agent.Service.Daemon.Bookkeeping.{
  after_sync, record_sync, sleep_for, DaemonState, persist_status, record_heartbeat, Prepared,
  Surroundings,
}
use mayfly_agent.Protocol.CaSync.Service.{SyncOutcome}
use mathlib.Core.Path.{subst}
use mayfly_agent.Errors.{Error}
use mayfly_agent.Security.Contents.{secure_write-Contents}
use mayfly_agent.Security.Frame.{Throughout}
use mayfly_agent.Security.{mode_public, Disk, Entry}
use mayfly_agent.Crates.{Instant}
use mayfly_agent.Text.Chars.{text_eq, Bytes}
use mayfly_agent.Service.RuntimeState.{
  RuntimeStatus, StatusFormat, status_path, save_status, write_status_json,
}
use mayfly_agent.Float.{Floats}
use mayfly_agent.Prelude.{ℕ, ◌+◌, ◌≡◌, refl, sym, false, Option, none, some, [], ◌∷◌, ◌++◌}
use mayfly_agent.Result.{err, ok, Result}
use mayfly_agent.Security.Write.{History, new_file}
use mayfly_agent.Service.Daemon.Reaches.{beats, syncs, sleeps, here, next, Reaches, DaemonStep}

-- A complete status file which says that the agent runs, or that its last stop was not clean.
pub record IsUnclean (format : StatusFormat) (entry : Option Entry) : Type 0 where
  pub status : RuntimeStatus
  pub json : Bytes
  pub uid : ℕ
  pub unclean : status.clean_shutdown ≡ false
  pub printed : format.to_vec_pretty status ≡ some json
  pub stored : entry ≡ new_file uid mode_public (json ++ 10 ∷ [])

module _ (fl : Floats) (out : Surroundings) (p : Prepared fl) where
  abbrev pub Uncleanly : Disk → Type 0
  Uncleanly disk = IsUnclean out.status_format (disk.lookup (status_path fl p.config))

  -- The status in memory says so too.
  abbrev pub Running : DaemonState → Type 0
  Running s = Throughout Uncleanly s.history × (s.status.clean_shutdown ≡ false)

module _ (fl : Floats) (out : Surroundings) (p : Prepared fl)
    (apart : (n : ℕ) → text_eq (status_path fl p.config) (out.status_run n).tmp ≡ false) where
  write-Running :
      (n : ℕ) (status : RuntimeStatus) (json : Option Bytes) (h : History)
      → status.clean_shutdown ≡ false
      → out.status_format.to_vec_pretty status ≡ json
      → Throughout (Uncleanly fl out p) h
      → Throughout
          (Uncleanly fl out p)
          (write_status_json (out.status_run n) (status_path fl p.config) json h).0
  write-Running n status none h unclean printed i = i
  write-Running n status (some json) h unclean printed i =
      secure_write-Contents (IsUnclean out.status_format) (out.status_run n)
        (status_path fl p.config) (json ++ 10 ∷ []) mode_public (apart n)
        (record {
          status = status;
          json = json;
          uid = (out.status_run n).uid;
          unclean = unclean;
          printed = printed;
          stored = refl;
        })
        h i

  persist-Running :
      (s : DaemonState) → Running fl out p s → Running fl out p (persist_status fl out p s)
  unfolding persist_status save_status
  persist-Running s (i, unclean) =
      (write-Running s.calls s.status _ s.history unclean refl i, unclean)

  heartbeat-Running :
      (s : DaemonState) → Running fl out p s → Running fl out p (record_heartbeat fl out p s).0
  unfolding record_heartbeat
  heartbeat-Running s i = persist-Running _ i

  after_sync-unclean :
      (now : Instant) (r : Result Error SyncOutcome) (status : RuntimeStatus)
      → status.clean_shutdown ≡ false
      → (after_sync fl out p now r status).clean_shutdown ≡ false
  after_sync-unclean now (ok outcome) status e = e
  after_sync-unclean now (err f) status e = e

  sync-Running :
      (s : DaemonState) → Running fl out p s → Running fl out p (record_sync fl out p s).0
  unfolding record_sync
  sync-Running s (i, unclean) =
      persist-Running _ (i, after_sync-unclean (s.now + out.took s.calls) _ s.status unclean)

  DaemonStep-Running :
      (s t : DaemonState) → DaemonStep fl out p s t → Running fl out p s → Running fl out p t
  unfolding sleep_for
  DaemonStep-Running s t (beats e) i = subst (Running fl out p) (sym e) (heartbeat-Running s i)
  DaemonStep-Running s t (syncs e) i = subst (Running fl out p) (sym e) (sync-Running s i)
  DaemonStep-Running s t (sleeps d e) i = subst (Running fl out p) (sym e) i

  -- From a state in which the status file is complete and does not say that the stop was clean, and
  -- nor does the status in memory, whatever steps the daemon takes and whatever write fails or is
  -- cut off: this stays so in every state of the file system. So a crash never passes for a clean
  -- stop. The temporary files are assumed to have other names than the status file.
  pub Reaches-Running :
      {s t : DaemonState} → Reaches fl out p s t → Running fl out p s → Running fl out p t
  Reaches-Running here i = i
  Reaches-Running (next r st) i = DaemonStep-Running _ _ st (Reaches-Running r i)
