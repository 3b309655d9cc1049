-- ===== src/ClientControl/Host/Invariant.antt =====
-- What every session keeps through every step.
use Prim.Native.String.{String}
use vk_turn_proxy_go.Base.{
  ℕ, ◌-◌, ◌≤◌, ◌<◌, Bool, true, false, not, ◌&&◌, List, [], ◌∷◌, ◌++◌, Option, none, some, arith,
  if_intro, length, ltb, length-drop,
}
use vk_turn_proxy_go.Base.Text.{is_empty}
use vk_turn_proxy_go.Base.TextDict.{
  lookup, Everywhere, insert-Everywhere, modify-Everywhere, modify,
}
use vk_turn_proxy_go.ClientControl.Execution.{PlatformTunnelCapability}
use vk_turn_proxy_go.ClientControl.Types.{
  SessionState, stopped, failed, Session, Challenge, ChallengeStatus, challenge_pending,
  challenge_continuing, challenge_completed, challenge_cancelled, challenge_failed, Event,
  FailureInfo, no_resolution_state, event_challenge_updated, session_starting, session_stopped,
}
use vk_turn_proxy_go.ClientControl.Artifacts.Contract.{Library}
use vk_turn_proxy_go.ClientControl.Host.Resolutions.{
  expire_locked, cancel_locked, cancel_resolution_context,
}
use vk_turn_proxy_go.ClientControl.Host.Resolutions.Start.{start_resolution_locked}
use vk_turn_proxy_go.ClientControl.Host.Resolutions.Finish.{
  succeed_locked, fail_locked, record_resolution_challenge_locked,
}
use vk_turn_proxy_go.ClientControl.Host.{
  ManagedSession, Host, new_host, append_with_limit, snapshot_event, log_event, publish_event,
}
use vk_turn_proxy_go.ClientControl.Host.Sessions.{
  start_locked, fresh_session, stop_locked, stop_found, StopReply, stop_snapshot, stop_managed,
  is_final, cancel_session, RunResult, run_ok, run_cancelled, run_failed, finish_snapshot,
  finish_state, finish_failure, finish_locked, finish_log, close_done,
}
use vk_turn_proxy_go.ClientControl.Host.Records.{
  RecordKind, runtime_ready, worker_restart_scheduled, runtime_failure, runtime_startup,
  RuntimeRecord, record_snapshot, record_event, record_locked, record_managed,
  clear_pending_challenges,
}
use vk_turn_proxy_go.ClientControl.Host.Challenges.{
  record_challenge_locked, record_managed_challenge, complete_locked, complete_managed,
  complete_snapshot, completed_state, challenge_event, required_event, signal_locked, signal_send,
  signal_log,
}
use vk_turn_proxy_go.ClientControl.Host.Steps.{
  Step, starts, stops, cancels, finishes, logs_finish, closes, publishes, records, clears,
  records_challenge, completes, signals, sends, logs_signal, run_step, run_steps, starts_resolution,
  expires, cancels_resolution, cancels_context, leases, resolves, fails, asks, lease_locked,
}

abbrev pub IsKnown {ℓ} : {A : Type ℓ} → Option A → Type 0
IsKnown none = ⊥
IsKnown (some a) = Unit

-- A session that failed says how and when, and one that stopped says when.
abbrev pub IsTold : SessionState → Option FailureInfo → Option ℕ → Type 0
IsTold failed f t = IsKnown f × IsKnown t
IsTold stopped f t = IsKnown t
IsTold state f t = Unit

abbrev pub IsValid : ℕ → ManagedSession → Type 0
IsValid limit m =
    (length m.events ≤ limit) × IsTold m.snapshot.state m.snapshot.failure m.snapshot.stopped_at

abbrev pub Inv : Host → Type 0
Inv h = (0 < h.history_limit) × Everywhere (IsValid h.history_limit) h.sessions

pub append_with_limit_le :
    (es : List Event) (e : Event) (limit : ℕ)
    → 0 < limit
    → length (append_with_limit es e limit) ≤ limit
append_with_limit_le es e limit h =
    let longer = es ++ e ∷ [] in
    let d = length-drop (length longer - limit) longer in
    if_intro (λ (x : List Event). length x ≤ limit) (ltb 0 limit && ltb limit (length longer)) _ _
      (λ b. omega (arith, d)) (λ b. ground arith)

log_event-IsValid :
    (limit : ℕ) (e : Event) (m : ManagedSession)
    → 0 < limit
    → IsTold m.snapshot.state m.snapshot.failure m.snapshot.stopped_at
    → IsValid limit (log_event limit e m)
log_event-IsValid limit e m l h = (append_with_limit_le m.events e limit l, h)

record_snapshot-IsTold :
    (k : RecordKind) (r : RuntimeRecord) (now : ℕ) (s : Session)
    → (let t = record_snapshot k r now s in IsTold t.state t.failure t.stopped_at)
unfolding record_snapshot
record_snapshot-IsTold runtime_ready r now s = tt
record_snapshot-IsTold worker_restart_scheduled r now s = tt
record_snapshot-IsTold runtime_failure r now s = (tt, tt)
record_snapshot-IsTold runtime_startup r now s = tt

complete_snapshot-IsTold :
    (status : ChallengeStatus) (c : Challenge) (s : Session)
    → IsTold s.state s.failure s.stopped_at
    → (let t = complete_snapshot status c s in IsTold t.state t.failure t.stopped_at)
complete_snapshot-IsTold challenge_completed c s h = tt
complete_snapshot-IsTold challenge_pending c s h = h
complete_snapshot-IsTold challenge_continuing c s h = h
complete_snapshot-IsTold challenge_cancelled c s h = h
complete_snapshot-IsTold challenge_failed c s h = h

finish-IsTold :
    (stop_requested : Bool) (r : RunResult) (now : ℕ) (f : Option FailureInfo)
    → IsTold (finish_state stop_requested r) (finish_failure stop_requested r f) (some now)
finish-IsTold true r now f = tt
finish-IsTold false run_ok now f = tt
finish-IsTold false run_cancelled now f = tt
finish-IsTold false (run_failed x) now f = (tt, tt)

finish_snapshot-IsTold :
    (now : ℕ) (stop_requested : Bool) (r : RunResult) (s : Session)
    → IsTold s.state s.failure s.stopped_at
    → (let t = finish_snapshot now stop_requested r s in IsTold t.state t.failure t.stopped_at)
finish_snapshot-IsTold now stop_requested r s h =
    if_intro (λ (t : Session). IsTold t.state t.failure t.stopped_at) _ _ _ (λ e. h)
      (λ e. finish-IsTold stop_requested r now s.failure)

-- A change of one session that keeps it valid.
modify-Inv :
    (h : Host) (id : String) (f : ManagedSession → ManagedSession)
    → ((m : ManagedSession) → IsValid h.history_limit m → IsValid h.history_limit (f m))
    → Inv h
    → Everywhere (IsValid h.history_limit) (modify id f h.sessions)
modify-Inv h id f k i = modify-Everywhere (IsValid h.history_limit) id f h.sessions k i.1

fresh_session-IsValid :
    (id p n source : String) (now limit : ℕ)
    → 0 < limit
    → IsValid limit (fresh_session id p n source now limit)
unfolding fresh_session
fresh_session-IsValid id p n source now limit l =
    let s = (fresh_session id p n source now limit).snapshot in
    (append_with_limit_le [] (snapshot_event s session_starting "" "") limit l, tt)

stop_found-Inv :
    (o : Option ManagedSession) (id : String) (now : ℕ) (h : Host)
    → Inv h
    → Inv (stop_found o id now h).1
stop_found-Inv none id now h i = i
stop_found-Inv (some m) id now h i =
    if_intro (λ (x : StopReply × Host). Inv x.1) (not (is_empty m.platform_mode)) _ _ (λ p. i)
      (λ p.
        if_intro (λ (x : StopReply × Host). Inv x.1) (is_final m.snapshot.state) _ _ (λ q. i)
          (λ q. (
            i.0,
            modify-Inv h id (stop_managed now h.history_limit)
                (λ n k. (
                  append_with_limit_le n.events
                      (snapshot_event (stop_snapshot now n.snapshot) session_stopped "" "stopping")
                      h.history_limit i.0,
                  tt,
                ))
                i,
          )))

module _ (new_id : ℕ → String) where
  publish_event-Inv : (e : Event) (h : Host) → Inv h → Inv (publish_event new_id e h)
  unfolding publish_event
  publish_event-Inv e h i = if_intro Inv (is_empty e.id) _ _ (λ b. i) (λ b. i)

module _ (lib : Library) (new_id : ℕ → String) where
  run_step-Inv : (x : Step) (h : Host) → Inv h → Inv (run_step lib new_id x h)
  unfolding run_step stop_locked start_locked fresh_session cancel_session finish_locked finish_log
      close_done record_locked clear_pending_challenges record_challenge_locked complete_locked
      signal_locked signal_send signal_log start_resolution_locked expire_locked cancel_locked
      cancel_resolution_context lease_locked succeed_locked fail_locked
      record_resolution_challenge_locked
  run_step-Inv (starts id p n s now) h i = (
    i.0,
    insert-Everywhere (IsValid h.history_limit) id (fresh_session id p n s now h.history_limit)
        h.sessions (fresh_session-IsValid id p n s now h.history_limit i.0) i.1,
  )
  run_step-Inv (stops id now) h i = stop_found-Inv (lookup id h.sessions) id now h i
  run_step-Inv (cancels id) h i = (i.0, modify-Inv h id _ (λ m k. k) i)
  run_step-Inv (finishes id now r) h i = (
    i.0,
    modify-Inv h id _ (λ m k. (k.0, finish_snapshot-IsTold now m.stop_requested r m.snapshot k.1))
        i,
  )
  run_step-Inv (logs_finish id s) h i =
      (i.0, modify-Inv h id _ (λ m k. log_event-IsValid h.history_limit _ m i.0 k.1) i)
  run_step-Inv (closes id) h i = (i.0, modify-Inv h id _ (λ m k. k) i)
  run_step-Inv (publishes e) h i = publish_event-Inv new_id e h i
  run_step-Inv (records kind r id session_id now) h i = (
    i.0,
    modify-Inv h session_id (record_managed kind r id session_id now h.history_limit)
        (λ m k. (
          append_with_limit_le m.events (record_event kind r id session_id now) h.history_limit i.0,
          record_snapshot-IsTold kind r now m.snapshot,
        ))
        i,
  )
  run_step-Inv (clears session_id now) h i = i
  run_step-Inv (records_challenge id session_id c) h i = (
    i.0,
    modify-Inv h session_id (record_managed_challenge id session_id h.history_limit c)
        (λ m k.
          (append_with_limit_le m.events (required_event id session_id c) h.history_limit i.0, tt))
        i,
  )
  run_step-Inv (completes id key status message c) h i = (
    i.0,
    modify-Inv h c.session_id (complete_managed id h.history_limit status message c)
        (λ m k. (
          append_with_limit_le m.events
              (challenge_event id c.updated_at event_challenge_updated
                (completed_state status m.snapshot.state) no_resolution_state message c)
              h.history_limit i.0,
          complete_snapshot-IsTold status c m.snapshot k.1,
        ))
        i,
  )
  run_step-Inv (signals key c) h i = (i.0, modify-Inv h c.session_id _ (λ m k. k) i)
  run_step-Inv (sends id a) h i = i
  run_step-Inv (logs_signal c e) h i =
      (i.0, modify-Inv h c.session_id _ (λ m k. log_event-IsValid h.history_limit _ m i.0 k.1) i)
  run_step-Inv (starts_resolution id d input link now) h i = i
  run_step-Inv (expires id now) h i = i
  run_step-Inv (cancels_resolution id now) h i = i
  run_step-Inv (cancels_context id) h i = i
  run_step-Inv (leases id) h i = i
  run_step-Inv (resolves id r now) h i = i
  run_step-Inv (fails id e now) h i = i
  run_step-Inv (asks id resolution_id c) h i = i

  run_steps-Inv_of : (xs : List Step) (h : Host) → Inv h → Inv (run_steps lib new_id xs h)
  unfolding run_steps
  run_steps-Inv_of [] h i = i
  run_steps-Inv_of (x ∷ xs) h i = run_steps-Inv_of xs (run_step lib new_id x h) (run_step-Inv x h i)

  new_host-Inv :
      (limit : ℕ) (tunnels : List PlatformTunnelCapability) → Inv (new_host limit tunnels)
  unfolding new_host
  new_host-Inv limit tunnels = (ground arith, tt)

  -- In whatever order the steps of sessions and clients follow one another on a new host, every
  -- session keeps at most as many events as the limit, a session that failed tells its failure and
  -- when it ended, and one that stopped tells when.
  pub run_steps-Inv :
      (limit : ℕ) (tunnels : List PlatformTunnelCapability) (xs : List Step)
      → Inv (run_steps lib new_id xs (new_host limit tunnels))
  run_steps-Inv limit tunnels xs =
      run_steps-Inv_of xs (new_host limit tunnels) (new_host-Inv limit tunnels)
