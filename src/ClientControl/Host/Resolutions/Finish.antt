-- ===== src/ClientControl/Host/Resolutions/Finish.antt =====
-- pkg/clientcontrol/resolution.go: how the run of a resolution asks for a challenge and how it ends. The
-- readings of the clock of one end are one.
use Prim.Native.String.{String}
use vk_turn_proxy_go.Base.{ℕ, ◌+◌, Bool, true, false, Option, none, some, if◌then◌else◌}
use vk_turn_proxy_go.Base.Text.{is_empty}
use vk_turn_proxy_go.Base.TextDict.{lookup, insert, modify}
use vk_turn_proxy_go.Base.Result.{Result, ok, err}
use vk_turn_proxy_go.ClientControl.Artifacts.{ProviderResolution, no_answer, ProbeArtifact}
use vk_turn_proxy_go.ClientControl.Artifacts.Contract.{
  Library, Contract, resolved_contract, first_non_empty, metadata_value,
}
use vk_turn_proxy_go.ClientControl.Artifacts.Failure.{
  ResolveError, plain_error, redacted_message, error_stage,
}
use vk_turn_proxy_go.ClientControl.Types.{
  ResolutionState, resolution_challenge_required, resolution_resolved, resolution_failed,
  resolution_cancelled, resolution_expired, event_resolution_resolved, event_resolution_failed,
  event_resolution_cancelled, event_resolution_expired, event_challenge_required, Resolution,
  Challenge, Event, no_state,
}
use vk_turn_proxy_go.ClientControl.Host.{Host, ManagedResolution, append_with_limit, publish_event}
use vk_turn_proxy_go.ClientControl.Host.Records.{bare_event}
use vk_turn_proxy_go.ClientControl.Host.Resolutions.{
  resolution_event, log_resolution, without_actions, has_ended,
}

abbrev redacted_link : Option ProbeArtifact → String
redacted_link none = ""
redacted_link (some a) =
    if is_empty a.link_redacted
    then if is_empty a.invite_url_redacted
      then a.normalized_join_token_redacted
      else a.invite_url_redacted
    else a.link_redacted

-- What `finishResolutionSuccess` makes of the snapshot, before it looks at the end of the export.
unfoldable pub resolved_snapshot : ProviderResolution → Contract → ℕ → Resolution → Resolution
unfolding first_non_empty metadata_value
resolved_snapshot r c now s = record s {
  provider = first_non_empty (metadata_value "provider" r) s.provider;
  resolution_method = metadata_value "resolution_method" r;
  input = record s.input {
    link_redacted = first_non_empty (redacted_link r.artifact) s.input.link_redacted;
  };
  credentials = c.credentials;
  export = c.export;
  artifact = some c.artifact;
  state = resolution_resolved;
  active_challenge_id = "";
  updated_at = now;
  resolved_at = some now;
}

abbrev pub born_expired : ℕ → Resolution → Resolution
born_expired now s = record s {
  state = resolution_expired;
  export = record s.export { supported = false };
  artifact = without_actions s.artifact;
  expired_at = some now;
}

abbrev pub success_event : Resolution → Event
success_event s = elim s.state [
  | resolution_expired ↦ resolution_event s event_resolution_expired "expired"
  | _ ↦ resolution_event s event_resolution_resolved ""
]

abbrev pub resolve_managed :
    ProviderResolution → Contract → ℕ → ℕ → ManagedResolution → ManagedResolution
resolve_managed r c now limit m =
    let s = resolved_snapshot r c now m.snapshot in
    let t = born_expired now s in
    if has_ended c.export.expires_at now
    then log_resolution limit (success_event t)
        (record m { snapshot = t; secret = no_answer; has_lease = false; done = true })
    else log_resolution limit (success_event s)
        (record m { snapshot = s; secret = r; has_lease = false; done = true })

abbrev pub is_cancelled : ResolutionState → Bool
is_cancelled resolution_cancelled = true
is_cancelled state = false

abbrev pub failed_snapshot : ResolveError → ℕ → Resolution → Resolution
failed_snapshot e now s =
    let t : Resolution = record s { active_challenge_id = ""; updated_at = now } in
    if is_cancelled s.state
    then t
    else if e.was_cancelled
    then record t { state = resolution_cancelled }
    else record t {
      state = resolution_failed;
      failure = some (record {
        stage = error_stage e;
        message = redacted_message e;
        not_implemented = e.not_implemented;
      });
    }

-- The event of a failure, for the state before it and the snapshot after it.
abbrev pub failure_event : ResolveError → ResolutionState → Resolution → Event
failure_event e before s =
    if is_cancelled before
    then resolution_event s event_resolution_failed (redacted_message e)
    else if e.was_cancelled
    then resolution_event s event_resolution_cancelled "cancelled"
    else resolution_event s event_resolution_failed (redacted_message e)

abbrev pub fail_managed : ResolveError → ℕ → ℕ → ManagedResolution → ManagedResolution
fail_managed e now limit m =
    let s = failed_snapshot e now m.snapshot in
    if m.done
    then record m { snapshot = s }
    else log_resolution limit (failure_event e m.snapshot.state s)
        (record m { snapshot = s; done = true })

-- The locked part of `finishResolutionFailure`.
unfoldable pub fail_locked : String → ResolveError → ℕ → Host → Host
unfolding modify redacted_message error_stage
fail_locked id e now h = record h {
  resolutions = modify id (fail_managed e now h.history_limit) h.resolutions;
}

abbrev pub is_closed : ResolutionState → Bool
is_closed resolution_cancelled = true
is_closed resolution_failed = true
is_closed resolution_expired = true
is_closed state = false

abbrev pub succeed_by :
    Result String Contract → ProviderResolution → ℕ → ℕ → ManagedResolution → ManagedResolution
succeed_by (err message) r now limit m = m
succeed_by (ok c) r now limit m = resolve_managed r c now limit m

-- The locked part of `recordResolutionChallenge`.
abbrev pub resolution_challenge_event : (id resolution_id : String) → Challenge → Event
resolution_challenge_event id resolution_id c =
    record (bare_event id "" c.created_at event_challenge_required no_state "") {
      resolution_id = resolution_id;
      resolution_state = resolution_challenge_required;
      challenge = some c;
    }

abbrev pub challenge_managed :
    (id resolution_id : String) → ℕ → Challenge → ManagedResolution → ManagedResolution
challenge_managed id resolution_id limit c m =
    log_resolution limit (resolution_challenge_event id resolution_id c) (record m {
      snapshot = record m.snapshot {
        state = resolution_challenge_required;
        active_challenge_id = c.id;
        updated_at = c.updated_at;
      };
      challenges = append_with_limit m.challenges c limit;
    })

unfoldable pub record_resolution_challenge_locked :
    (id resolution_id : String) → Challenge → Host → Host
unfolding insert modify
record_resolution_challenge_locked id resolution_id c h = record h {
  ids = h.ids + 1;
  resolutions =
      modify resolution_id (challenge_managed id resolution_id h.history_limit c) h.resolutions;
  challenges = insert c.id (record { snapshot = c; action = none }) h.challenges;
}

module _ (lib : Library) where
  -- The locked part of `finishResolutionSuccess`, where the contract holds.
  unfoldable pub succeed_managed :
      ProviderResolution → ℕ → Host → ManagedResolution → ManagedResolution
  unfolding resolved_contract resolved_snapshot
  succeed_managed r now h m =
      if is_closed m.snapshot.state
      then m
      else succeed_by (resolved_contract lib m.descriptor r now h.platform_tunnels) r now
          h.history_limit m

  unfoldable pub succeed_locked : String → ProviderResolution → ℕ → Host → Host
  unfolding modify succeed_managed
  succeed_locked id r now h = record h {
    resolutions = modify id (succeed_managed r now h) h.resolutions;
  }

module _ (new_id : ℕ → String) where
  abbrev pub fail_found : Option ManagedResolution → String → ResolveError → ℕ → Host → Host
  fail_found none id e now h = h
  fail_found (some m) id e now h =
      let t = fail_locked id e now h in
      if m.done
      then t
      else publish_event new_id
          (failure_event e m.snapshot.state (failed_snapshot e now m.snapshot)) t

  -- `finishResolutionFailure`.
  unfoldable pub finish_failure_of : String → ResolveError → ℕ → Host → Host
  unfolding lookup fail_locked publish_event redacted_message error_stage
  finish_failure_of id e now h = fail_found (lookup id h.resolutions) id e now h

  -- `recordResolutionChallenge`.
  abbrev pub challenge_found : Option ManagedResolution → String → Challenge → Host → Host
  challenge_found none resolution_id c h = h
  challenge_found (some m) resolution_id c h =
      publish_event new_id (resolution_challenge_event (new_id h.ids) resolution_id c)
        (record_resolution_challenge_locked (new_id h.ids) resolution_id c h)

  unfoldable pub record_resolution_challenge : String → Challenge → Host → Host
  unfolding lookup record_resolution_challenge_locked publish_event
  record_resolution_challenge resolution_id c h =
      challenge_found (lookup resolution_id h.resolutions) resolution_id c h

module _ (lib : Library) (new_id : ℕ → String) where
  abbrev pub success_by :
      Result String Contract → String → ProviderResolution → ℕ → ManagedResolution → Host → Host
  success_by (err message) id r now m h = finish_failure_of new_id id (plain_error message) now h
  success_by (ok c) id r now m h =
      publish_event new_id (success_event (resolve_managed r c now h.history_limit m).snapshot)
        (succeed_locked lib id r now h)

  abbrev pub success_found :
      Option ManagedResolution → String → ProviderResolution → ℕ → Host → Host
  success_found none id r now h = h
  success_found (some m) id r now h =
      let told =
        success_by (resolved_contract lib m.descriptor r now h.platform_tunnels) id r now m h in
      if is_closed m.snapshot.state then h else told

  -- `finishResolutionSuccess`.
  unfoldable pub finish_success_of : String → ProviderResolution → ℕ → Host → Host
  unfolding lookup resolved_contract finish_failure_of publish_event succeed_locked
      resolved_snapshot
  finish_success_of id r now h = success_found (lookup id h.resolutions) id r now h

  -- The end of `runResolution`, on what the provider answers.
  abbrev pub finish_run : String → Result ResolveError ProviderResolution → ℕ → Host → Host
  finish_run id (err e) now h = finish_failure_of new_id id e now h
  finish_run id (ok r) now h = finish_success_of id r now h
