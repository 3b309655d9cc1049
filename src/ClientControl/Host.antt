-- ===== src/ClientControl/Host.antt =====
-- pkg/clientcontrol/host.go: the sessions of the host. A method that unlocks the mutex in between is
-- made of its locked parts; `now` is what `Host.now` answers and `new_id n` the n-th identifier that
-- `Host.newID` does. What is published is recorded in order; which subscriber has room for it is left
-- out, and so are the metrics, the logger and the profiles.
pub mod Sessions
pub mod Records
pub mod Challenges
pub mod Resolutions
pub mod Steps
pub mod Invariant
pub mod Endings
pub mod Stopped
pub mod Starts
use Prim.Native.String.{String}
use text.Mathlib.Text.{◌==◌ as str_eq}
use vk_turn_proxy_go.Base.{
  ℕ, ◌+◌, ◌-◌, Bool, true, false, not, ◌&&◌, ◌||◌, List, [], ◌∷◌, ◌++◌, Option, none, some,
  if◌then◌else◌, length, drop, ltb, take,
}
use vk_turn_proxy_go.Base.Int.{ℤ, pos}
use vk_turn_proxy_go.Base.Text.{is_empty, trim_space}
use vk_turn_proxy_go.Base.TextDict.{lookup, insert, modify}
use vk_turn_proxy_go.ClientControl.Execution.{PlatformTunnelCapability}
use vk_turn_proxy_go.ClientControl.Artifacts.{ProviderResolution, ProviderDescriptor}
use vk_turn_proxy_go.ClientControl.Types.{
  SessionState, no_state, starting, challenge_required, ready, retrying, stopping, stopped, failed,
  EventType, session_starting, session_ready, session_retrying, session_failed, session_stopped,
  FailureInfo, Session, Challenge, Event, Resolution, no_resolution_state,
}

-- `actionCh` holds one action at most.
pub data ActionKind : Type 0 where
  continue_kind cancel_kind : ActionKind

-- `continuation` says whether the action carries a browser continuation.
pub record ChallengeAction : Type 0 where
  pub kind : ActionKind
  pub continuation : Bool

-- `done` says whether the channel is closed, `cancelled` whether the context is.
pub record ManagedSession : Type 0 where
  pub snapshot : Session
  pub done : Bool
  pub cancelled : Bool
  pub events : List Event
  pub challenges : List Challenge
  pub stop_requested : Bool
  pub platform_mode : String

pub record ManagedChallenge : Type 0 where
  pub snapshot : Challenge
  pub action : Option ChallengeAction

-- `input` of a resolution, but for the settings of its provider.
pub record StartedInput : Type 0 where
  pub provider : String
  pub kind : String
  pub link : String
  pub interactive_provider : Bool

-- `has_lease` says whether there is a `wireGuardTurnLease`.
pub record ManagedResolution : Type 0 where
  pub snapshot : Resolution
  pub secret : ProviderResolution
  pub remote_export_payload : String
  pub has_lease : Bool
  pub descriptor : ProviderDescriptor
  pub cancelled : Bool
  pub done : Bool
  pub input : StartedInput
  pub events : List Event
  pub challenges : List Challenge

pub record Host : Type 0 where
  pub history_limit : ℕ
  pub sessions : List (String × ManagedSession)
  pub challenges : List (String × ManagedChallenge)
  pub resolutions : List (String × ManagedResolution)
  pub platform_tunnels : List PlatformTunnelCapability
  pub ids : ℕ
  pub published : List Event

abbrev pub default_history_limit : ℕ
default_history_limit = 256

-- `New`, with the limit that is configured; 0 is none.
unfoldable pub new_host : ℕ → List PlatformTunnelCapability → Host
new_host limit tunnels = record {
  history_limit = if ltb 0 limit then limit else default_history_limit;
  sessions = [];
  challenges = [];
  resolutions = [];
  platform_tunnels = tunnels;
  ids = 0;
  published = [];
}

abbrev pub append_with_limit {ℓ} : {A : Type ℓ} → List A → A → ℕ → List A
append_with_limit items item limit =
    let longer = items ++ item ∷ [] in
    if ltb 0 limit && ltb limit (length longer) then drop (length longer - limit) longer else longer

abbrev pub snapshot_event : Session → EventType → (stage message : String) → Event
snapshot_event s type stage message = record {
  id = "";
  timestamp = s.updated_at;
  session_id = s.id;
  resolution_id = "";
  type = type;
  state = s.state;
  resolution_state = no_resolution_state;
  stage = stage;
  message = message;
  connections = pos 0;
  ready_workers = pos 0;
  restart = pos 0;
  backoff = "";
  challenge = none;
  artifact = none;
}

-- An event joins the history of a session.
abbrev pub log_event : ℕ → Event → ManagedSession → ManagedSession
log_event limit e m = record m { events = append_with_limit m.events e limit }

module _ (new_id : ℕ → String) where
  unfoldable pub publish_event : Event → Host → Host
  publish_event e h =
      if is_empty e.id
      then record h {
        ids = h.ids + 1;
        published = h.published ++ record e { id = new_id h.ids } ∷ [];
      }
      else record h { published = h.published ++ e ∷ [] }
