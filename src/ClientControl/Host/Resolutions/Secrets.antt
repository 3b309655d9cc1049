-- ===== src/ClientControl/Host/Resolutions/Secrets.antt =====
-- What every resolution keeps through every step.
use vk_turn_proxy_go.Base.{
  ℕ, ◌≤◌, ◌<◌, ◌≡◌, refl, Bool, false, not, List, [], ◌∷◌, Option, none, some, if_intro, length,
  arith,
}
use vk_turn_proxy_go.Base.Result.{Result, ok, err}
use vk_turn_proxy_go.Base.Text.{is_empty}
use vk_turn_proxy_go.Base.TextDict.{
  lookup, modify, Everywhere, insert-Everywhere, modify-Everywhere,
}
use Prim.Native.String.{String}
use vk_turn_proxy_go.ClientControl.Execution.{PlatformTunnelCapability}
use vk_turn_proxy_go.ClientControl.Artifacts.{ProviderResolution, no_answer, ResolutionArtifact}
use vk_turn_proxy_go.ClientControl.Artifacts.Contract.{Library, Contract, resolved_contract}
use vk_turn_proxy_go.ClientControl.Artifacts.Failure.{ResolveError}
use vk_turn_proxy_go.ClientControl.Types.{
  ResolutionState, resolution_expired, Resolution, Challenge, ChallengeStatus, challenge_pending,
  challenge_continuing, challenge_completed, challenge_cancelled, challenge_failed, Event,
}
use vk_turn_proxy_go.ClientControl.Host.{
  ManagedResolution, ManagedSession, Host, new_host, append_with_limit, publish_event,
}
use vk_turn_proxy_go.ClientControl.Host.Sessions.{
  start_locked, stop_locked, stop_found, StopReply, is_final, cancel_session, finish_locked,
  finish_log, close_done,
}
use vk_turn_proxy_go.ClientControl.Host.Records.{record_locked, clear_pending_challenges}
use vk_turn_proxy_go.ClientControl.Host.Challenges.{
  record_challenge_locked, complete_locked, complete_resolution, signal_locked, signal_send,
  signal_log,
}
use vk_turn_proxy_go.ClientControl.Host.Resolutions.{
  expire_resolution, expired_event, expired_snapshot, expire_locked, cancel_locked,
  cancel_unless_over, cancel_resolution_context, is_over, is_expiring, without_actions, has_ended,
}
use vk_turn_proxy_go.ClientControl.Host.Resolutions.Start.{
  fresh_resolution, start_resolution_locked,
}
use vk_turn_proxy_go.ClientControl.Host.Resolutions.Finish.{
  resolve_managed, resolved_snapshot, succeed_by, succeed_managed, succeed_locked, failed_snapshot,
  fail_managed, fail_locked, is_cancelled, is_closed, record_resolution_challenge_locked,
  challenge_managed,
}
use vk_turn_proxy_go.ClientControl.Host.Steps.{
  Step, starts, stops, cancels, finishes, logs_finish, closes, publishes, records, clears,
  records_challenge, completes, signals, sends, logs_signal, starts_resolution, expires,
  cancels_resolution, cancels_context, leases, resolves, fails, asks, lease_locked, run_step,
  run_steps,
}
use vk_turn_proxy_go.ClientControl.Host.Invariant.{append_with_limit_le}

abbrev pub HasNoActions : Option ResolutionArtifact → Type 0
HasNoActions none = Unit
HasNoActions (some a) = a.actions ≡ []

-- A resolution that expired has no secret, supports no export and offers no action.
abbrev pub IsSpent :
    ResolutionState → ProviderResolution → Bool → Option ResolutionArtifact → Type 0
IsSpent resolution_expired secret supported artifact =
    (secret ≡ no_answer) × (supported ≡ false) × HasNoActions artifact
IsSpent state secret supported artifact = Unit

abbrev pub SpentIf : ManagedResolution → Type 0
SpentIf m = IsSpent m.snapshot.state m.secret m.snapshot.export.supported m.snapshot.artifact

abbrev pub IsKept : ℕ → ManagedResolution → Type 0
IsKept limit m = (length m.events ≤ limit) × SpentIf m

abbrev pub Inv : Host → Type 0
Inv h = (0 < h.history_limit) × Everywhere (IsKept h.history_limit) h.resolutions

without_actions-HasNoActions : (a : Option ResolutionArtifact) → HasNoActions (without_actions a)
without_actions-HasNoActions none = tt
without_actions-HasNoActions (some a) = refl

module _ (limit : ℕ) (l : 0 < limit) where
  expire_resolution-IsKept :
      (now : ℕ) (m : ManagedResolution)
      → IsKept limit m
      → IsKept limit (expire_resolution now limit m)
  unfolding expire_resolution
  expire_resolution-IsKept now m k =
      if_intro (IsKept limit) (is_expiring now m.snapshot) _ _
        (λ _. (
          append_with_limit_le m.events (expired_event (expired_snapshot now m.snapshot)) limit l,
          (refl, refl, without_actions-HasNoActions m.snapshot.artifact),
        ))
        (λ _. k)

  cancel-IsKept :
      (now : ℕ) (m : ManagedResolution)
      → IsKept limit m
      → IsKept limit (cancel_unless_over now limit m)
  cancel-IsKept now m k =
      if_intro (IsKept limit) (is_over m.snapshot.state) _ _ (λ _. k)
        (λ _. (append_with_limit_le m.events _ limit l, tt))

  resolve_managed-IsKept :
      (r : ProviderResolution) (c : Contract) (now : ℕ) (m : ManagedResolution)
      → IsKept limit (resolve_managed r c now limit m)
  unfolding resolved_snapshot
  resolve_managed-IsKept r c now m =
      if_intro (IsKept limit) (has_ended c.export.expires_at now) _ _
        (λ _. (append_with_limit_le m.events _ limit l, (refl, refl, refl)))
        (λ _. (append_with_limit_le m.events _ limit l, tt))

  succeed_by-IsKept :
      (o : Result String Contract) (r : ProviderResolution) (now : ℕ) (m : ManagedResolution)
      → IsKept limit m
      → IsKept limit (succeed_by o r now limit m)
  succeed_by-IsKept (err e) r now m k = k
  succeed_by-IsKept (ok c) r now m k = resolve_managed-IsKept r c now m

  failed_snapshot-SpentIf :
      (e : ResolveError) (now : ℕ) (m : ManagedResolution)
      → SpentIf m
      → SpentIf (record m { snapshot = failed_snapshot e now m.snapshot })
  failed_snapshot-SpentIf e now m k =
      if_intro (λ (s : Resolution). SpentIf (record m { snapshot = s }))
        (is_cancelled m.snapshot.state) _ _ (λ _. k)
        (λ _.
          if_intro (λ (s : Resolution). SpentIf (record m { snapshot = s })) e.was_cancelled _ _
            (λ _. tt) (λ _. tt))

  fail_managed-IsKept :
      (e : ResolveError) (now : ℕ) (m : ManagedResolution)
      → IsKept limit m
      → IsKept limit (fail_managed e now limit m)
  fail_managed-IsKept e now m k =
      let s = failed_snapshot-SpentIf e now m k.1 in
      if_intro (IsKept limit) m.done _ _ (λ _. (k.0, s))
        (λ _. (append_with_limit_le m.events _ limit l, s))

complete_resolution-IsKept :
    (limit : ℕ) (status : ChallengeStatus) (c : Challenge) (m : ManagedResolution)
    → IsKept limit m
    → IsKept limit (complete_resolution status c m)
complete_resolution-IsKept limit challenge_completed c m k = (k.0, tt)
complete_resolution-IsKept limit challenge_pending c m k = k
complete_resolution-IsKept limit challenge_continuing c m k = k
complete_resolution-IsKept limit challenge_cancelled c m k = k
complete_resolution-IsKept limit challenge_failed c m k = k

stop_found-Inv :
    (o : Option ManagedSession) (id : String) (now : ℕ) (h : Host)
    → Inv h
    → Inv (stop_found o id now h).1
stop_found-Inv none id now h i = i
stop_found-Inv (some m) id now h i =
    if_intro (λ (x : StopReply × Host). Inv x.1) (not (is_empty m.platform_mode)) _ _ (λ p. i)
      (λ p.
        if_intro (λ (x : StopReply × Host). Inv x.1) (is_final m.snapshot.state) _ _ (λ q. i)
          (λ q. i))

publish_event-Inv :
    (new_id : ℕ → String) (e : Event) (h : Host) → Inv h → Inv (publish_event new_id e h)
unfolding publish_event
publish_event-Inv new_id e h i = if_intro Inv (is_empty e.id) _ _ (λ b. i) (λ b. i)

modify-Inv :
    (h : Host) (id : String) (f : ManagedResolution → ManagedResolution)
    → ((m : ManagedResolution) → IsKept h.history_limit m → IsKept h.history_limit (f m))
    → Inv h
    → Everywhere (IsKept h.history_limit) (modify id f h.resolutions)
modify-Inv h id f k i = modify-Everywhere (IsKept h.history_limit) id f h.resolutions k i.1

module _ (lib : Library) (new_id : ℕ → String) where
  run_step-Inv : (x : Step) (h : Host) → Inv h → Inv (run_step lib new_id x h)
  unfolding run_step stop_locked start_locked cancel_session finish_locked finish_log close_done
      record_locked clear_pending_challenges record_challenge_locked complete_locked signal_locked
      signal_send signal_log start_resolution_locked fresh_resolution expire_locked cancel_locked
      cancel_resolution_context lease_locked succeed_locked succeed_managed fail_locked
      record_resolution_challenge_locked
  run_step-Inv (starts id p n s now) h i = i
  run_step-Inv (stops id now) h i = stop_found-Inv (lookup id h.sessions) id now h i
  run_step-Inv (cancels id) h i = i
  run_step-Inv (finishes id now r) h i = i
  run_step-Inv (logs_finish id s) h i = i
  run_step-Inv (closes id) h i = i
  run_step-Inv (publishes e) h i = publish_event-Inv new_id e h i
  run_step-Inv (records kind r id session_id now) h i = i
  run_step-Inv (clears session_id now) h i = i
  run_step-Inv (records_challenge id session_id c) h i = i
  run_step-Inv (completes id key status message c) h i = (
    i.0,
    modify-Inv h c.resolution_id (complete_resolution status c)
        (λ m k. complete_resolution-IsKept h.history_limit status c m k) i,
  )
  run_step-Inv (signals key c) h i = (i.0, modify-Inv h c.resolution_id _ (λ m k. k) i)
  run_step-Inv (sends id a) h i = i
  run_step-Inv (logs_signal c e) h i = (
    i.0,
    modify-Inv h c.resolution_id
        (λ m. record m { events = append_with_limit m.events e h.history_limit })
        (λ m k. (append_with_limit_le m.events e h.history_limit i.0, k.1)) i,
  )
  run_step-Inv (starts_resolution id d input link now) h i = (
    i.0,
    insert-Everywhere (IsKept h.history_limit) id
        (fresh_resolution id d input link now h.history_limit) h.resolutions
        (append_with_limit_le [] _ h.history_limit i.0, tt) i.1,
  )
  run_step-Inv (expires id now) h i = (
    i.0,
    modify-Inv h id (expire_resolution now h.history_limit)
        (λ m k. expire_resolution-IsKept h.history_limit i.0 now m k) i,
  )
  run_step-Inv (cancels_resolution id now) h i = (
    i.0,
    modify-Inv h id (cancel_unless_over now h.history_limit)
        (λ m k. cancel-IsKept h.history_limit i.0 now m k) i,
  )
  run_step-Inv (cancels_context id) h i = (i.0, modify-Inv h id _ (λ m k. k) i)
  run_step-Inv (leases id) h i = (i.0, modify-Inv h id _ (λ m k. k) i)
  run_step-Inv (resolves id r now) h i = (
    i.0,
    modify-Inv h id (succeed_managed lib r now h)
        (λ m k.
          if_intro (IsKept h.history_limit) (is_closed m.snapshot.state) _ _ (λ _. k)
            (λ _.
              succeed_by-IsKept h.history_limit i.0
                (resolved_contract lib m.descriptor r now h.platform_tunnels) r now m k))
        i,
  )
  run_step-Inv (fails id e now) h i = (
    i.0,
    modify-Inv h id (fail_managed e now h.history_limit)
        (λ m k. fail_managed-IsKept h.history_limit i.0 e now m k) i,
  )
  run_step-Inv (asks id resolution_id c) h i = (
    i.0,
    modify-Inv h resolution_id (challenge_managed id resolution_id h.history_limit c)
        (λ m k. (append_with_limit_le m.events _ h.history_limit i.0, tt)) i,
  )

  run_steps-Inv_of : (xs : List Step) (h : Host) → Inv h → Inv (run_steps lib new_id xs h)
  unfolding run_steps
  run_steps-Inv_of [] h i = i
  run_steps-Inv_of (x ∷ xs) h i = run_steps-Inv_of xs (run_step lib new_id x h) (run_step-Inv x h i)

  new_host-Inv :
      (limit : ℕ) (tunnels : List PlatformTunnelCapability) → Inv (new_host limit tunnels)
  unfolding new_host
  new_host-Inv limit tunnels = (ground arith, tt)

  -- In whatever order the steps of resolutions, sessions and clients follow one another on a new host,
  -- every resolution keeps at most as many events as the limit, and a resolution that expired has lost
  -- the secrets that its provider answered, supports no export and offers no action.
  pub run_steps-SpentIf :
      (limit : ℕ) (tunnels : List PlatformTunnelCapability) (xs : List Step)
      → Inv (run_steps lib new_id xs (new_host limit tunnels))
  run_steps-SpentIf limit tunnels xs =
      run_steps-Inv_of xs (new_host limit tunnels) (new_host-Inv limit tunnels)
