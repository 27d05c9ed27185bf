-- ===== src/Service/Daemon/Honest.antt =====
-- The daemon never tells the server of a generation that is ahead of the state file.
use mayfly_agent.Service.Daemon.Reaches.{
  beats, syncs, sleeps, here, next, run_poll_loop-Reaches, Reaches, DaemonStep,
}
use mathlib.Core.Path.{subst}
use mayfly_agent.Result.{err, ok, Result}
use mayfly_agent.Protocol.CaSync.Covered.{synchronize-Covers, synchronize_keeps-Covers}
use mayfly_agent.Service.Daemon.Bookkeeping.{
  after_sync, sync_service, persist_status, run_poll_loop, record_sync, record_heartbeat, sleep_for,
  Prepared, Surroundings, DaemonState,
}
use mayfly_agent.Protocol.CaSync.Pass.{synchronize}
use mayfly_agent.Service.RuntimeState.{RuntimeStatus}
use mayfly_agent.Crates.{Instant}
use mayfly_agent.Protocol.CaSync.Service.{SyncOutcome}
use mayfly_agent.Errors.{Error}
use mayfly_agent.Protocol.CaSync.Step.{World}
use mayfly_agent.Service.Polling.{PollState}
use mayfly_agent.Protocol.CaSync.Monotone.{ReadsU64}
use mayfly_agent.Protocol.Heartbeat.{HeartbeatRequest}
use mayfly_agent.Protocol.CaSync.Reported.{stored, Covers}
use mayfly_agent.Float.{Floats}
use mayfly_agent.Prelude.{ℕ, ◌+◌, ◌≡◌, refl, sym, some, List, [], ◌∷◌, All}

-- The file covers the generation of the status and that of every heartbeat sent.
abbrev pub Honest : DaemonState → Type 0
Honest s =
    Covers (stored s.world.files.generation) s.status.current_generation
    × All (λ (r : HeartbeatRequest). Covers (stored s.world.files.generation) r.current_generation)
        s.sent

All-implies :
    {A : Type 0} (P Q : A → Type 0) (xs : List A) → ((a : A) → P a → Q a) → All P xs → All Q xs
All-implies P Q [] f h = tt
All-implies P Q (x ∷ xs) f h = (f x h.0, All-implies P Q xs f h.1)

module _ (fl : Floats) (out : Surroundings) (p : Prepared fl)
    (u64 : (n : ℕ) → ReadsU64 (out.sync n)) where
  heartbeat-Honest : (s : DaemonState) → Honest s → Honest (record_heartbeat fl out p s).0
  unfolding record_heartbeat persist_status
  heartbeat-Honest s (c, sent) = (c, (c, sent))

  status-Covers :
      (w v : World) (n : ℕ) (result : Result Error SyncOutcome) (now : Instant)
      (status : RuntimeStatus)
      → synchronize out.lib (sync_service fl out p n) w ≡ (v, result)
      → Covers (stored w.files.generation) status.current_generation
      → Covers
          (stored v.files.generation)
          (after_sync fl out p now result status).current_generation
  status-Covers w v n (ok outcome) now status h c =
      synchronize-Covers out.lib (sync_service fl out p n) (u64 n) w v outcome h
  status-Covers w v n (err e) now status h c =
      subst
        (λ (t : World × Result Error SyncOutcome).
          Covers (stored t.0.files.generation) status.current_generation)
        h
        (synchronize_keeps-Covers out.lib (sync_service fl out p n) (u64 n) w
          status.current_generation c)

  sync-Honest : (s : DaemonState) → Honest s → Honest (record_sync fl out p s).0
  unfolding record_sync persist_status
  sync-Honest s (c, sent) =
      let service = sync_service fl out p s.calls in
      (
        status-Covers s.world _ s.calls _ (s.now + out.took s.calls) s.status refl c,
        All-implies _ _ s.sent
            (λ r.
              synchronize_keeps-Covers out.lib service (u64 s.calls) s.world r.current_generation)
            sent,
      )

  sleep-Honest : (d : ℕ) (s : DaemonState) → Honest s → Honest (sleep_for fl out p d s)
  unfolding sleep_for
  sleep-Honest d s h = h

  DaemonStep-Honest : (s t : DaemonState) → DaemonStep fl out p s t → Honest s → Honest t
  DaemonStep-Honest s t (beats e) h = subst Honest (sym e) (heartbeat-Honest s h)
  DaemonStep-Honest s t (syncs e) h = subst Honest (sym e) (sync-Honest s h)
  DaemonStep-Honest s t (sleeps d e) h = subst Honest (sym e) (sleep-Honest d s h)

  -- Where the status of the first state is covered by the generation file, and so are the
  -- heartbeats sent by then, this is so in every state that the daemon reaches: no heartbeat
  -- reports a generation ahead of the one on disk.
  pub Reaches-Honest : {s t : DaemonState} → Reaches fl out p s t → Honest s → Honest t
  Reaches-Honest here h = h
  Reaches-Honest (next r st) h = DaemonStep-Honest _ _ st (Reaches-Honest r h)

  -- Where the generation file covers the status with which the poll loop starts and no heartbeat
  -- has been sent, then, when the loop ends, the file covers the status and the generation of
  -- every heartbeat sent: the agent never reports a generation ahead of the one on disk. It is
  -- assumed that serde reads the generation of a bundle as a u64.
  pub run_poll_loop-Honest :
      (fuel : ℕ) (st end : PollState fl DaemonState)
      → Honest st.world
      → run_poll_loop fl out p fuel st ≡ some end
      → Honest end.world
  run_poll_loop-Honest fuel st end h done =
      Reaches-Honest (run_poll_loop-Reaches fl out p fuel st end done) h
