-- ===== src/Service/Daemon/Run/Untouched.antt =====
-- What the writes of the daemon beside the state files leave as it is.
use mayfly_agent.Service.Daemon.Reaches.{beats, syncs, sleeps, here, next, Reaches, DaemonStep}
use mayfly_agent.Service.Daemon.Run.{run}
use mayfly_agent.Security.Keeps.{Keeps, bind-Keeps, reading-Keeps}
use mayfly_agent.Security.Store.{followed_link, Os}
use mathlib.Core.Path.{subst}
use mayfly_agent.Service.Daemon.Bookkeeping.{
  sleep_for, record_sync, record_heartbeat, Surroundings, Prepared, persist_status, DaemonState,
}
use mayfly_agent.Security.{mode_dir, set, mode_public, Entry, Disk}
use mayfly_agent.Config.{Config}
use mayfly_agent.Service.RuntimeState.{
  chmod_entry, may_be_dir, RuntimeStatus, StatusFormat, status_path, save_status, write_status_json,
  ensure_state_dir, create_dir_all,
}
use mayfly_agent.Security.Frame.{secure_write-Stands, Stands, Throughout}
use mayfly_agent.Text.Chars.{text_eq, Bytes, Text}
use mayfly_agent.Float.{Floats}
use mayfly_agent.Prelude.{ℕ, ◌≡◌, sym, Bool, true, false, ◌&&◌, Option, none, some, [], ◌∷◌, ◌++◌}
use mayfly_agent.Security.Write.{History, syscall, Run}

syscall-Keeps :
    (J : Disk → Type 0) (b : Bool) (f : Disk → Disk)
    → ((disk : Disk) → J disk → J (f disk))
    → Keeps (Throughout J) (syscall b f)
unfolding Keeps
syscall-Keeps J true f step h i = (step h.present i.0, i)
syscall-Keeps J false f step h i = i

-- The private key file stands in all states.
unfoldable pub KeyStays : Text → Entry → History → Type 0
KeyStays key entry h = Throughout (Stands key (some entry)) h

module _ (fl : Floats) (config : Config fl) (key : Text) (entry : Entry) where
  set-Stands :
      (path : Text) (new : Option Entry) (disk : Disk)
      → text_eq key path ≡ false
      → Stands key (some entry) disk
      → Stands key (some entry) (set path new disk)
  set-Stands path new disk apart j = (rw apart j.0, j.1)

  create-Keeps :
      (os : Os) (created : Bool)
      → text_eq key config.state_dir ≡ false
      → Keeps (KeyStays key entry) (create_dir_all os created config.state_dir)
  unfolding Keeps KeyStays
  create-Keeps os created apart h i =
      syscall-Keeps (Stands key (some entry))
        (created
          && may_be_dir (followed_link os config.state_dir (h.present.lookup config.state_dir)))
        _ (λ disk j. set-Stands config.state_dir _ disk apart j) h i

  chmod-Keeps :
      (permitted : Bool)
      → text_eq key config.state_dir ≡ false
      → Keeps (KeyStays key entry) (
          syscall permitted (λ disk.
            set config.state_dir (chmod_entry mode_dir (disk.lookup config.state_dir)) disk))
  unfolding KeyStays
  chmod-Keeps permitted apart =
      syscall-Keeps (Stands key (some entry)) permitted _
        (λ disk j. set-Stands config.state_dir _ disk apart j)

  pub state_dir-Keeps :
      (os : Os) (created permitted : Bool)
      → text_eq key config.state_dir ≡ false
      → Keeps (KeyStays key entry) (ensure_state_dir os created permitted config.state_dir)
  unfolding ensure_state_dir
  state_dir-Keeps os created permitted apart =
      bind-Keeps (KeyStays key entry) _ _
        (bind-Keeps (KeyStays key entry) _ _ (create-Keeps os created apart)
          (λ u. reading-Keeps (KeyStays key entry) _))
        (λ u. chmod-Keeps permitted apart)

  write-Keeps :
      (run : Run) (json : Option Bytes)
      → text_eq key (status_path fl config) ≡ false
      → text_eq key run.tmp ≡ false
      → Keeps (KeyStays key entry) (write_status_json run (status_path fl config) json)
  unfolding Keeps KeyStays
  write-Keeps run none a b h i = i
  write-Keeps run (some json) a b h i =
      secure_write-Stands key (some entry) run (status_path fl config) (json ++ 10 ∷ []) mode_public
        h a b i

  pub save_status-Keeps :
      (format : StatusFormat) (run : Run) (status : RuntimeStatus)
      → text_eq key (status_path fl config) ≡ false
      → text_eq key run.tmp ≡ false
      → Keeps (KeyStays key entry) (save_status fl format run status config)
  unfolding save_status
  save_status-Keeps format run status = write-Keeps run (format.to_vec_pretty status)

module _ (fl : Floats) (out : Surroundings) (p : Prepared fl) (key : Text) (entry : Entry)
    (status_apart : text_eq key (status_path fl p.config) ≡ false)
    (tmp_apart : (n : ℕ) → text_eq key (out.status_run n).tmp ≡ false) where
  unfoldable pub Untouched : DaemonState → Type 0
  Untouched s = KeyStays key entry s.history

  persist-Untouched : (s : DaemonState) → Untouched s → Untouched (persist_status fl out p s)
  unfolding persist_status Untouched Keeps
  persist-Untouched s i =
      save_status-Keeps fl p.config key entry out.status_format (out.status_run s.calls) s.status
        status_apart (tmp_apart s.calls) s.history i

  heartbeat-Untouched : (s : DaemonState) → Untouched s → Untouched (record_heartbeat fl out p s).0
  unfolding record_heartbeat Untouched
  heartbeat-Untouched s i = persist-Untouched _ i

  sync-Untouched : (s : DaemonState) → Untouched s → Untouched (record_sync fl out p s).0
  unfolding record_sync Untouched
  sync-Untouched s i = persist-Untouched _ i

  DaemonStep-Untouched : (s t : DaemonState) → DaemonStep fl out p s t → Untouched s → Untouched t
  unfolding Untouched sleep_for
  DaemonStep-Untouched s t (beats e) i = subst Untouched (sym e) (heartbeat-Untouched s i)
  DaemonStep-Untouched s t (syncs e) i = subst Untouched (sym e) (sync-Untouched s i)
  DaemonStep-Untouched s t (sleeps d e) i = subst Untouched (sym e) i

  pub Reaches-Untouched : {s t : DaemonState} → Reaches fl out p s t → Untouched s → Untouched t
  Reaches-Untouched here i = i
  Reaches-Untouched (next r st) i = DaemonStep-Untouched _ _ st (Reaches-Untouched r i)
