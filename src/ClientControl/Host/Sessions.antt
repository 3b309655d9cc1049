-- ===== src/ClientControl/Host/Sessions.antt =====
-- pkg/clientcontrol/host.go: how sessions start, stop and end.
use Prim.Native.String.{String}
use vk_turn_proxy_go.Base.{
  ℕ, Bool, true, false, not, List, [], ◌∷◌, Option, none, some, if◌then◌else◌, take,
}
use vk_turn_proxy_go.Base.Text.{is_empty, trim_space}
use vk_turn_proxy_go.Base.TextDict.{lookup, insert, modify}
use vk_turn_proxy_go.ClientControl.Types.{
  SessionState, starting, stopping, stopped, failed, session_starting, session_stopped, FailureInfo,
  Session,
}
use vk_turn_proxy_go.ClientControl.Host.{
  ManagedSession, Host, snapshot_event, log_event, publish_event,
}

-- A candidate under which there is no session, or else what comes after.
abbrev pub unless_known : Option ManagedSession → String → Option String → Option String
unless_known none candidate rest = some candidate
unless_known (some m) candidate rest = rest

-- `allocateSessionID`, on what `newSessionID` answers.
unfoldable pub allocate_among : List String → List (String × ManagedSession) → Option String
unfolding trim_space lookup
allocate_among [] sessions = none
allocate_among (answer ∷ answers) sessions =
    let rest = allocate_among answers sessions in
    let candidate = trim_space answer in
    if is_empty candidate then rest else unless_known (lookup candidate sessions) candidate rest

unfoldable pub allocate_session_id : List String → Host → Option String
unfolding allocate_among
allocate_session_id answers h = allocate_among (take 8 answers) h.sessions

unfoldable pub fresh_session :
    (id profile_id profile_name source_resolution_id : String) (now limit : ℕ) → ManagedSession
fresh_session id profile_id profile_name source_resolution_id now limit =
    let s : Session = record {
      id = id;
      profile_id = profile_id;
      profile_name = profile_name;
      source_resolution_id = source_resolution_id;
      state = starting;
      failure = none;
      active_challenge_id = "";
      started_at = now;
      updated_at = now;
      stopped_at = none;
    } in
    log_event limit (snapshot_event s session_starting "" "") (record {
      snapshot = s;
      done = false;
      cancelled = false;
      events = [];
      challenges = [];
      stop_requested = false;
      platform_mode = "";
    })

-- The locked part of `startSessionFromSpec`.
unfoldable pub start_locked :
    (id profile_id profile_name source_resolution_id : String) (now : ℕ) → Host → Host
unfolding fresh_session insert
start_locked id profile_id profile_name source_resolution_id now h = record h {
  sessions =
      insert id (fresh_session id profile_id profile_name source_resolution_id now h.history_limit)
        h.sessions;
}

abbrev pub is_final : SessionState → Bool
is_final stopped = true
is_final failed = true
is_final state = false

abbrev pub stop_snapshot : ℕ → Session → Session
stop_snapshot now s = record s { state = stopping; updated_at = now }

abbrev pub stop_managed : ℕ → ℕ → ManagedSession → ManagedSession
stop_managed now limit m =
    log_event limit (snapshot_event (stop_snapshot now m.snapshot) session_stopped "" "stopping")
      (record m { stop_requested = true; snapshot = stop_snapshot now m.snapshot })

pub data StopReply : Type 0 where
  session_not_found : StopReply
  of_platform : (mode : String) → StopReply
  already_final : Session → StopReply
  now_stopping : Session → StopReply

-- A session of a platform tunnel is left to `StopPlatformTunnel`.
abbrev pub stop_found : Option ManagedSession → String → ℕ → Host → StopReply × Host
stop_found none id now h = (session_not_found, h)
stop_found (some m) id now h =
    if not (is_empty m.platform_mode)
    then (of_platform m.platform_mode, h)
    else if is_final m.snapshot.state
    then (already_final m.snapshot, h)
    else (
      now_stopping (stop_snapshot now m.snapshot),
      record h { sessions = modify id (stop_managed now h.history_limit) h.sessions },
    )

-- The locked part of `StopSession`.
unfoldable pub stop_locked : String → ℕ → Host → StopReply × Host
unfolding lookup modify
stop_locked id now h = stop_found (lookup id h.sessions) id now h

-- The call of the session's cancel function.
unfoldable pub cancel_session : String → Host → Host
unfolding modify
cancel_session id h = record h {
  sessions = modify id (λ m. record m { cancelled = true }) h.sessions;
}

-- What `session.Run` returns: nothing, an error of a cancelled context, or another error, with what
-- `runstage.FromError` and the host read of it.
pub data RunResult : Type 0 where
  run_ok run_cancelled : RunResult
  run_failed : FailureInfo → RunResult

abbrev pub finish_state : Bool → RunResult → SessionState
finish_state true r = stopped
finish_state false run_ok = stopped
finish_state false run_cancelled = stopped
finish_state false (run_failed f) = failed

abbrev pub finish_failure : Bool → RunResult → Option FailureInfo → Option FailureInfo
finish_failure false (run_failed f) old = some f
finish_failure stop_requested r old = old

abbrev pub is_failed : SessionState → Bool
is_failed failed = true
is_failed state = false

abbrev pub finish_snapshot : ℕ → Bool → RunResult → Session → Session
finish_snapshot now stop_requested r s = if is_failed s.state then s else record s {
  updated_at = now;
  stopped_at = some now;
  state = finish_state stop_requested r;
  failure = finish_failure stop_requested r s.failure;
}

-- The first locked part of `finishSession`.
unfoldable pub finish_locked : String → ℕ → RunResult → Host → Host
unfolding modify
finish_locked id now r h = record h {
  sessions =
      modify id (λ m. record m { snapshot = finish_snapshot now m.stop_requested r m.snapshot })
        h.sessions;
}

-- The second one, for the snapshot of the first.
unfoldable pub finish_log : String → Session → Host → Host
unfolding modify
finish_log id s h = record h {
  sessions =
      modify id (log_event h.history_limit (snapshot_event s session_stopped "" "stopped"))
        h.sessions;
}

-- `close(done)`.
unfoldable pub close_done : String → Host → Host
unfolding modify
close_done id h = record h { sessions = modify id (λ m. record m { done = true }) h.sessions }

abbrev pub is_stopped : SessionState → Bool
is_stopped stopped = true
is_stopped state = false

module _ (new_id : ℕ → String) where
  -- A session that was allocated is stored and told of; its run begins then.
  abbrev pub start_allocated :
      Option String
      → (profile_id profile_name source_resolution_id : String) → ℕ
      → Host
      → Option Session × Host
  start_allocated none profile_id profile_name source_resolution_id now h = (none, h)
  start_allocated (some id) profile_id profile_name source_resolution_id now h =
      let s =
        (fresh_session id profile_id profile_name source_resolution_id now
          h.history_limit).snapshot in
      (
        some s,
        publish_event new_id (snapshot_event s session_starting "" "")
            (start_locked id profile_id profile_name source_resolution_id now h),
      )

  -- `startSessionFromSpec`, on what `newSessionID` answers; none is its error.
  unfoldable pub start_session :
      List String
      → (profile_id profile_name source_resolution_id : String) → ℕ
      → Host
      → Option Session × Host
  unfolding fresh_session publish_event start_locked allocate_session_id
  start_session answers profile_id profile_name source_resolution_id now h =
      start_allocated (allocate_session_id answers h) profile_id profile_name source_resolution_id
        now h

  -- A session that is stopped now is told of and cancelled.
  abbrev pub after_stop : String → StopReply → Host → Host
  after_stop id (now_stopping s) h =
      cancel_session id (publish_event new_id (snapshot_event s session_stopped "" "stopping") h)
  after_stop id reply h = h

  -- `StopSession`, but for the platform tunnels.
  unfoldable pub stop_session : String → ℕ → Host → StopReply × Host
  unfolding stop_locked publish_event cancel_session
  stop_session id now h = let (reply, t) = stop_locked id now h in (reply, after_stop id reply t)

  -- The end of `finishSession`, for the session after its first locked part.
  abbrev pub finish_found : Option ManagedSession → String → (before after : Host) → Host
  finish_found none id before after = before
  finish_found (some m) id before after =
      let told =
        publish_event new_id (snapshot_event m.snapshot session_stopped "" "stopped")
          (finish_log id m.snapshot after) in
      close_done id (if is_stopped m.snapshot.state then told else after)

  unfoldable pub finish_session : String → ℕ → RunResult → Host → Host
  unfolding finish_locked lookup finish_log publish_event close_done
  finish_session id now r h =
      let t = finish_locked id now r h in finish_found (lookup id t.sessions) id h t
