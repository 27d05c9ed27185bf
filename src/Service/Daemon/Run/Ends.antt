-- ===== src/Service/Daemon/Run/Ends.antt =====
-- How a run that got as far as the poll loop ends.
use mayfly_agent.Service.Daemon.Run.Recovered.{recover-reads}
use mayfly_agent.Service.Daemon.Run.{
  clean_status, Startup, Ended, recover, first_state, first_status, first_calls, poll_start,
  stop_cleanly, stopped, work, poll, after_enrollment, enroll_and_work, run,
}
use mayfly_agent.Service.RuntimeState.{save_status, current_generation}
use mayfly_agent.Result.{err, ok, Result}
use mayfly_agent.Errors.{Error}
use mayfly_agent.Service.Daemon.Bookkeeping.{run_poll_loop, DaemonState, Prepared}
use mayfly_agent.Service.Polling.{PollState}
use mayfly_agent.Identity.Machine.{MachineIdentity}
use mayfly_agent.Float.{Floats}
use mayfly_agent.Prelude.{
  ℕ, ◌≡◌, refl, ap, ◌∙◌, Bool, true, false, Option, none, some, if◌then◌else◌,
}
use mayfly_agent.Security.Write.{History}

module _ (fl : Floats) (start : Startup fl) where
  -- What the daemon leaves behind a clean stop.
  abbrev pub last_state : PollState fl DaemonState → DaemonState
  last_state end = record end.world {
    history =
        (save_status fl start.out.status_format start.last_run (clean_status fl start end.world)
          start.state.config end.world.history).0;
    status = clean_status fl start end.world;
  }

  pub stop_cleanly-ends :
      (end : PollState fl DaemonState) (ended : Ended) (s : DaemonState)
      → stop_cleanly fl start (some end) ≡ some ended
      → ended.daemon ≡ some s
      → (last_state end ≡ s)
        × ((save_status fl start.out.status_format start.last_run
              (clean_status fl start end.world)
              start.state.config
              end.world.history).1
            ≡ ended.result)
        × ((last_state end).history ≡ ended.history)
  unfolding stop_cleanly
  stop_cleanly-ends end ended s e d =
      let saved =
        save_status fl start.out.status_format start.last_run (clean_status fl start end.world)
          start.state.config end.world.history in
      let last : Ended = record {
        history = saved.0;
        daemon = some (last_state end);
        result = saved.1;
      } in
      let same : last ≡ ended = cc in
      let kept : some (last_state end) ≡ some s = ap (λ (x : Ended). x.daemon) same ∙ d in
      (cc, ap (λ (x : Ended). x.result) same, ap (λ (x : Ended). x.history) same)

  -- The way through a run that ended with a daemon: the state read at `before`, the loop and the
  -- clean stop.
  pub record Worked (fuel : ℕ) (ended : Ended) : Type 0 where
    pub p : Prepared fl
    pub generation : ℕ
    pub before : History
    pub saved : History
    pub end : PollState fl DaemonState
    pub read :
        current_generation fl (start.enroll.outside 0).os start.state.config before.present
        ≡ ok generation
    pub looped :
        run_poll_loop fl start.out p fuel (
          poll_start fl start p (
            first_calls fl start p
              (record (first_state fl start p generation before) { history = saved })))
        ≡ some end
    pub stop : stop_cleanly fl start (some end) ≡ some ended

  not_stopped :
      (h : History) (r : Result Error (Unit {0})) (ended : Ended) (s : DaemonState)
      → stopped fl h r ≡ some ended
      → ended.daemon ≡ some s
      → ⊥
  not_stopped h r ended s e d =
      let same : record { history = h; daemon = none; result = r } ≡ ended = cc in
      let bad : none ≡ some s = ap (λ (x : Ended). x.daemon) same ∙ d in cc

  no_end : (ended : Ended) → stop_cleanly fl start none ≡ some ended → ⊥
  unfolding stop_cleanly
  no_end ended e = cc

  work-Worked :
      (fuel : ℕ) (r : History × Result Error (Prepared fl × ℕ)) (ended : Ended) (s : DaemonState)
      → ((p : Prepared fl) (g : ℕ)
          → r.1 ≡ ok (p, g)
          → current_generation fl (start.enroll.outside 0).os start.state.config r.0.present ≡ ok g)
      → work fl start fuel r ≡ some ended
      → ended.daemon ≡ some s
      → Worked fuel ended
  unfolding work
  work-Worked fuel (h, err e) ended s reads done d = absurd (not_stopped h (err e) ended s done d)
  work-Worked fuel (h, ok (p, g)) ended s reads done d =
      polled
        (save_status fl start.out.status_format start.first_run (first_status fl start p g)
          start.state.config h)
        done
    where
      looping :
          (saved : History) (o : Option (PollState fl DaemonState))
          → run_poll_loop fl start.out p fuel (
              poll_start fl start p
                (first_calls fl start p (record (first_state fl start p g h) { history = saved })))
            ≡ o
          → stop_cleanly fl start o ≡ some ended
          → Worked fuel ended
      looping saved none ran e = absurd (no_end ended e)
      looping saved (some end) ran e = record {
        p = p;
        generation = g;
        before = h;
        saved = saved;
        end = end;
        read = reads p g refl;
        looped = ran;
        stop = e;
      }

      polled :
          (saved : History × Result Error (Unit {0}))
          → poll fl start fuel p (record (first_state fl start p g h) { history = saved.0 }) saved.1
            ≡ some ended
          → Worked fuel ended
      polled (after, err e) run = absurd (not_stopped after (err e) ended s run d)
      polled (after, ok u) run = looping after _ refl run

  unless-Worked :
      (fuel : ℕ) (h : History) (identity : MachineIdentity) (ended : Ended) (s : DaemonState)
      (requested : Bool)
      → (if requested
          then stopped fl h (ok tt)
          else work fl start fuel (recover fl start identity h))
        ≡ some ended
      → ended.daemon ≡ some s
      → Worked fuel ended
  unless-Worked fuel h identity ended s true e d = absurd (not_stopped h (ok tt) ended s e d)
  unless-Worked fuel h identity ended s false e d =
      work-Worked fuel (recover fl start identity h) ended s
        (λ p g r.
          (recover-reads fl start identity h _ p g
            (ap (λ x. ((recover fl start identity h).0, x)) r)).0)
        e d

  after_enrollment-Worked :
      (fuel : ℕ) (o : Option (History × Result Error MachineIdentity)) (ended : Ended)
      (s : DaemonState)
      → after_enrollment fl start fuel o ≡ some ended
      → ended.daemon ≡ some s
      → Worked fuel ended
  unfolding after_enrollment
  after_enrollment-Worked fuel none ended s e d = absurd (cc)
  after_enrollment-Worked fuel (some (h, err f)) ended s e d =
      absurd (not_stopped h (err f) ended s e d)
  after_enrollment-Worked fuel (some (h, ok identity)) ended s e d =
      unless-Worked fuel h identity ended s start.requested e d

  enroll_and_work-Worked :
      (retries fuel : ℕ) (h : History) (r : Result Error (Unit {0})) (ended : Ended)
      (s : DaemonState)
      → enroll_and_work fl start retries fuel h r ≡ some ended
      → ended.daemon ≡ some s
      → Worked fuel ended
  enroll_and_work-Worked retries fuel h (err f) ended s e d =
      absurd (not_stopped h (err f) ended s e d)
  enroll_and_work-Worked retries fuel h (ok u) ended s e d =
      after_enrollment-Worked fuel _ ended s e d

  pub run-Worked :
      (retries fuel : ℕ) (h : History) (ended : Ended) (s : DaemonState)
      → run fl start retries fuel h ≡ some ended
      → ended.daemon ≡ some s
      → Worked fuel ended
  unfolding run
  run-Worked retries fuel h ended s e d = enroll_and_work-Worked retries fuel _ _ ended s e d
