-- ===== src/ClientControl/Host/Resolutions.antt =====
-- pkg/clientcontrol/resolution.go: the resolutions of the host: how they are read, expire and are
-- cancelled.
pub mod Start
pub mod Finish
pub mod Export
pub mod Secrets
pub mod Exports
pub mod Starts
pub mod Outcomes
mod Examples
use Prim.Native.String.{String}
use text.Mathlib.Text.{◌==◌ as str_eq}
use vk_turn_proxy_go.Base.{
  ℕ, ◌+◌, Bool, true, false, not, List, [], ◌∷◌, Option, none, some, if◌then◌else◌, take, ltb,
}
use vk_turn_proxy_go.Base.Text.{is_empty, trim_space}
use vk_turn_proxy_go.Base.TextDict.{lookup, insert, modify}
use vk_turn_proxy_go.Base.Result.{Result, ok, err, ◌>>◌, ◌>>=◌, guard}
use vk_turn_proxy_go.ClientControl.Artifacts.{
  ProviderResolution, no_answer, ProviderDescriptor, ProbeArtifact, no_export, ResolutionArtifact,
  ResolutionExportStatus,
}
use vk_turn_proxy_go.ClientControl.Artifacts.Contract.{
  Library, Contract, resolved_contract, first_non_empty, metadata_value,
}
use vk_turn_proxy_go.ClientControl.Artifacts.Failure.{
  ResolveError, plain_error, redacted_message, error_stage,
}
use vk_turn_proxy_go.ClientControl.Types.{
  ResolutionState, resolution_starting, resolution_challenge_required, resolution_resolved,
  resolution_failed, resolution_cancelled, resolution_expired, EventType, event_resolution_starting,
  event_resolution_resolved, event_resolution_failed, event_resolution_cancelled,
  event_resolution_expired, event_challenge_required, FailureInfo, Resolution, ResolutionInput,
  Challenge, Event, no_state,
}
use vk_turn_proxy_go.ClientControl.Host.{
  Host, ManagedResolution, StartedInput, append_with_limit, publish_event,
}
use vk_turn_proxy_go.ClientControl.Host.Records.{bare_event}

abbrev pub resolution_event : Resolution → EventType → String → Event
resolution_event s type message = record (bare_event "" "" s.updated_at type no_state "") {
  resolution_id = s.id;
  resolution_state = s.state;
  message = message;
  artifact = s.artifact;
}

abbrev pub log_resolution : ℕ → Event → ManagedResolution → ManagedResolution
log_resolution limit e m = record m { events = append_with_limit m.events e limit }

abbrev pub without_actions : Option ResolutionArtifact → Option ResolutionArtifact
without_actions none = none
without_actions (some a) = some (record a { actions = [] })

-- `expireResolutionLocked`, of a resolution whose export ends.
abbrev pub expired_snapshot : ℕ → Resolution → Resolution
expired_snapshot now s = record s {
  state = resolution_expired;
  export = record s.export { supported = false };
  active_challenge_id = "";
  updated_at = now;
  expired_at = some now;
  artifact = without_actions s.artifact;
}

abbrev pub expired_event : Resolution → Event
expired_event s = resolution_event s event_resolution_expired "expired"

abbrev pub expire_managed : ℕ → ℕ → ManagedResolution → ManagedResolution
expire_managed now limit m =
    log_resolution limit (expired_event (expired_snapshot now m.snapshot)) (record m {
      snapshot = expired_snapshot now m.snapshot;
      has_lease = false;
      secret = no_answer;
    })

-- The export ends, and has ended.
abbrev pub has_ended : Option ℕ → ℕ → Bool
has_ended none now = false
has_ended (some t) now = not (ltb now t)

abbrev pub is_resolved : ResolutionState → Bool
is_resolved resolution_resolved = true
is_resolved state = false

abbrev pub is_expiring : ℕ → Resolution → Bool
is_expiring now s = if is_resolved s.state then has_ended s.export.expires_at now else false

unfoldable pub expire_resolution : ℕ → ℕ → ManagedResolution → ManagedResolution
expire_resolution now limit m = if is_expiring now m.snapshot then expire_managed now limit m else m

-- The same in the map of the host.
unfoldable pub expire_locked : String → ℕ → Host → Host
unfolding modify expire_resolution
expire_locked id now h = record h {
  resolutions = modify id (expire_resolution now h.history_limit) h.resolutions;
}

abbrev pub is_over : ResolutionState → Bool
is_over resolution_resolved = true
is_over resolution_failed = true
is_over resolution_cancelled = true
is_over resolution_expired = true
is_over state = false

abbrev pub cancelled_snapshot : ℕ → Resolution → Resolution
cancelled_snapshot now s = record s {
  state = resolution_cancelled;
  active_challenge_id = "";
  updated_at = now;
}

abbrev pub cancel_managed : ℕ → ℕ → ManagedResolution → ManagedResolution
cancel_managed now limit m =
    log_resolution limit
      (resolution_event (cancelled_snapshot now m.snapshot) event_resolution_cancelled "cancelled")
      (record m { snapshot = cancelled_snapshot now m.snapshot; done = true })

abbrev pub cancel_unless_over : ℕ → ℕ → ManagedResolution → ManagedResolution
cancel_unless_over now limit m = if is_over m.snapshot.state then m else cancel_managed now limit m

-- The locked part of `CancelResolution`, of a resolution that there is.
unfoldable pub cancel_locked : String → ℕ → Host → Host
unfolding modify
cancel_locked id now h = record h {
  resolutions = modify id (cancel_unless_over now h.history_limit) h.resolutions;
}

-- The call of the cancel function.
unfoldable pub cancel_resolution_context : String → Host → Host
unfolding modify
cancel_resolution_context id h = record h {
  resolutions = modify id (λ m. record m { cancelled = true }) h.resolutions;
}

-- What a method tells of a resolution.
pub data ResolutionReply : Type 0 where
  resolution_not_found : ResolutionReply
  resolution_told : Resolution → ResolutionReply

module _ (new_id : ℕ → String) where
  -- The event of an expiry is published when the mutex is released.
  abbrev pub tell_expiry : ℕ → ManagedResolution → Host → Host
  tell_expiry now m h =
      if is_expiring now m.snapshot
      then publish_event new_id (expired_event (expired_snapshot now m.snapshot)) h
      else h

  abbrev pub read_found : Option ManagedResolution → String → ℕ → Host → ResolutionReply × Host
  read_found none id now h = (resolution_not_found, h)
  read_found (some m) id now h = (
    resolution_told (expire_resolution now h.history_limit m).snapshot,
    tell_expiry now m (expire_locked id now h),
  )

  -- `Resolution`.
  unfoldable pub read_resolution : String → ℕ → Host → ResolutionReply × Host
  unfolding lookup expire_locked expire_resolution publish_event
  read_resolution id now h = read_found (lookup id h.resolutions) id now h

  abbrev pub cancel_found : Option ManagedResolution → String → ℕ → Host → ResolutionReply × Host
  cancel_found none id now h = (resolution_not_found, h)
  cancel_found (some m) id now h =
      let s = cancelled_snapshot now m.snapshot in
      if is_over m.snapshot.state then (resolution_told m.snapshot, h) else (
        resolution_told s,
        cancel_resolution_context id (
            publish_event new_id (resolution_event s event_resolution_cancelled "cancelled")
              (cancel_locked id now h)),
      )

  -- `CancelResolution`.
  unfoldable pub cancel_resolution : String → ℕ → Host → ResolutionReply × Host
  unfolding lookup cancel_locked cancel_resolution_context publish_event
  cancel_resolution id now h = cancel_found (lookup id h.resolutions) id now h
