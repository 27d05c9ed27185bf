-- ===== src/Service/Daemon/Run/Final.antt =====
-- What holds at the end of a run.
use mayfly_agent.Result.{err, Result-cases, ok, Result}
use mayfly_agent.Service.Daemon.Run.Recovered.{content-Covers}
use mayfly_agent.Service.Daemon.Run.Ends.{stop_cleanly-ends, run-Worked}
use mayfly_agent.Errors.{Error}
use mayfly_agent.Service.Daemon.Honest.{run_poll_loop-Honest, Reaches-Honest, Honest}
use mayfly_agent.Config.{generation_path}
use mayfly_agent.Service.RuntimeState.{
  status_path, save_status, write_status_json, current_generation,
}
use mathlib.Core.Path.{subst}
use mayfly_agent.Security.Lands.{secure_write-lands}
use mayfly_agent.Security.{mode_public}
use mayfly_agent.Service.Daemon.Run.{
  Startup, Ended, first_state, first_calls, poll_start, stop_cleanly, run, clean_status,
}
use mayfly_agent.Text.Chars.{Bytes, text_eq}
use mayfly_agent.Service.Daemon.Bookkeeping.{DaemonState}
use mayfly_agent.Protocol.CaSync.Monotone.{ReadsU64}
use mayfly_agent.Float.{Floats}
use mayfly_agent.Prelude.{
  ℕ, ◌≡◌, refl, sym, ap, ◌∙◌, ◌⊎◌, inl, inr, true, false, Option, none, some, [], ◌∷◌, ◌++◌,
}
use mayfly_agent.Security.Write.{History, new_file}
use mayfly_agent.Service.Daemon.Reaches.{beats, syncs, here, next, Reaches}

-- The daemon, if the run had one.
abbrev pub IsHonest : Option DaemonState → Type 0
IsHonest none = Unit
IsHonest (some s) = Honest s

module _ (fl : Floats) (start : Startup fl) (u64 : (n : ℕ) → ReadsU64 (start.out.sync n)) where
  daemon-Honest :
      (retries fuel : ℕ) (h : History) (ended : Ended) (s : DaemonState)
      → run fl start retries fuel h ≡ some ended
      → ended.daemon ≡ some s
      → Honest s
  unfolding stop_cleanly current_generation
  daemon-Honest retries fuel h ended s e d =
      let w = run-Worked fl start retries fuel h ended s e d in
      let first = record (first_state fl start w.p w.generation w.before) { history = w.saved } in
      let covered =
        content-Covers (start.enroll.outside 0).os (generation_path fl start.state.config)
          w.before.present w.generation w.read in
      let called : Reaches fl start.out w.p first (first_calls fl start w.p first) =
        next (next here (beats refl)) (syncs refl) in
      let begun = Reaches-Honest fl start.out w.p u64 called (covered, tt) in
      let done =
        run_poll_loop-Honest fl start.out w.p u64 fuel
          (poll_start fl start w.p (first_calls fl start w.p first)) w.end begun w.looped in
      subst Honest (stop_cleanly-ends fl start w.end ended s w.stop d).0 done

  each-Honest :
      (retries fuel : ℕ) (h : History) (ended : Ended) (o : Option DaemonState)
      → run fl start retries fuel h ≡ some ended
      → ended.daemon ≡ o
      → IsHonest o
  each-Honest retries fuel h ended none e d = tt
  each-Honest retries fuel h ended (some s) e d = daemon-Honest retries fuel h ended s e d

  -- Where serde reads the generation of a bundle as a u64: when a run returns, and it got as far as
  -- the poll loop, the generation file covers the status and every heartbeat that was sent, the
  -- one before the loop included, whatever the files held at the start.
  pub run-IsHonest :
      (retries fuel : ℕ) (h : History) (ended : Ended)
      → run fl start retries fuel h ≡ some ended
      → IsHonest ended.daemon
  run-IsHonest retries fuel h ended e = each-Honest retries fuel h ended ended.daemon e refl

module _ (fl : Floats) (start : Startup fl) where
  -- The status on disk is that of the daemon, and says that the stop was clean.
  pub record IsStoppedCleanly (s : DaemonState) (h : History) : Type 0 where
    pub clean : s.status.clean_shutdown ≡ true
    pub json : Bytes
    pub printed : start.out.status_format.to_vec_pretty s.status ≡ some json
    pub stored :
        h.present.lookup (status_path fl start.state.config)
        ≡ new_file start.last_run.uid mode_public (json ++ 10 ∷ [])

  -- Of a run that polled: its status stands, or it returned an error.
  abbrev pub StopCases : Ended → Option DaemonState → Type 0
  StopCases ended none = Unit
  StopCases ended (some s) =
      ((ended.result ≡ ok tt) × IsStoppedCleanly s ended.history)
      ⊎ ((e : Error) × (ended.result ≡ err e))

  module _ (apart : text_eq (status_path fl start.state.config) start.last_run.tmp ≡ false) where
    Lands : Option Bytes → History × Result Error (Unit {0}) → Type 0
    Lands json r =
        (bytes : Bytes) × (json ≡ some bytes)
        × (r.0.present.lookup (status_path fl start.state.config)
            ≡ new_file start.last_run.uid mode_public (bytes ++ 10 ∷ []))

    json-Lands :
        (json : Option Bytes) (h : History)
        → (write_status_json start.last_run (status_path fl start.state.config) json h).1 ≡ ok tt
        → Lands json (write_status_json start.last_run (status_path fl start.state.config) json h)
    unfolding Lands
    json-Lands none h e = absurd (cc)
    json-Lands (some bytes) h e = (
      bytes,
      refl,
      secure_write-lands start.last_run (status_path fl start.state.config) (bytes ++ 10 ∷ [])
          mode_public apart h e,
    )

    daemon_stops :
        (retries fuel : ℕ) (h : History) (ended : Ended) (s : DaemonState)
        → run fl start retries fuel h ≡ some ended
        → ended.daemon ≡ some s
        → ended.result ≡ ok tt
        → IsStoppedCleanly s ended.history
    unfolding save_status Lands
    daemon_stops retries fuel h ended s e d r =
        let w = run-Worked fl start retries fuel h ended s e d in
        let (last, result, history) = stop_cleanly-ends fl start w.end ended s w.stop d in
        let (json, printed, stored) =
          json-Lands (start.out.status_format.to_vec_pretty (clean_status fl start w.end.world))
            w.end.world.history (result ∙ r) in
        record {
          clean = ap (λ (x : DaemonState). x.status.clean_shutdown) (sym last);
          json = json;
          printed =
              subst
                (λ (x : DaemonState). start.out.status_format.to_vec_pretty x.status ≡ some json)
                last printed;
          stored =
              subst
                (λ (x : History).
                  x.present.lookup (status_path fl start.state.config)
                  ≡ new_file start.last_run.uid mode_public (json ++ 10 ∷ []))
                history stored;
        }

    each_stops :
        (retries fuel : ℕ) (h : History) (ended : Ended) (o : Option DaemonState)
        → run fl start retries fuel h ≡ some ended
        → ended.daemon ≡ o
        → StopCases ended o
    each_stops retries fuel h ended none e d = tt
    each_stops retries fuel h ended (some s) e d = elim (Result-cases ended.result) [
      | inl (u, r) ↦ inl (r, daemon_stops retries fuel h ended s e d r)
      | inr (failure, r) ↦ inr (failure, r)
    ]

    -- Where the status file is not the temporary file: a run that got as far as the poll loop and
    -- returns without an error has left the status of the daemon on disk, complete and marked as a
    -- clean stop.
    pub run_stops_cleanly :
        (retries fuel : ℕ) (h : History) (ended : Ended)
        → run fl start retries fuel h ≡ some ended
        → StopCases ended ended.daemon
    run_stops_cleanly retries fuel h ended e = each_stops retries fuel h ended ended.daemon e refl
