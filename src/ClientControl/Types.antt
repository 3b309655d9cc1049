-- ===== src/ClientControl/Types.antt =====
-- pkg/clientcontrol/types.go: what the host tells of sessions, challenges and events. A session's
-- profile and the browser metadata of a challenge are passed on unread, and are left out. An instant is
-- a number.
use Prim.Native.String.{String}
use vk_turn_proxy_go.Base.{ℕ, Bool, Option}
use vk_turn_proxy_go.Base.Int.{ℤ}
use vk_turn_proxy_go.ClientControl.Artifacts.{
  ResolutionArtifact, ResolutionCredentials, ResolutionExportStatus, RemoteVpsArtifactSummary,
}

-- `no_state` is the empty text, which an event may carry.
pub data SessionState : Type 0 where
  no_state starting challenge_required ready retrying stopping stopped failed : SessionState

pub data ChallengeStatus : Type 0 where
  challenge_pending challenge_continuing challenge_completed : ChallengeStatus
  challenge_cancelled challenge_failed : ChallengeStatus

pub data EventType : Type 0 where
  session_starting session_ready session_retrying session_failed session_stopped : EventType
  event_resolution_starting event_resolution_resolved event_resolution_failed : EventType
  event_resolution_cancelled event_resolution_expired : EventType
  event_challenge_required event_challenge_updated : EventType

-- `no_resolution_state` is the empty text, which an event of a session carries.
pub data ResolutionState : Type 0 where
  no_resolution_state resolution_starting resolution_challenge_required : ResolutionState
  resolution_resolved resolution_failed resolution_cancelled resolution_expired : ResolutionState

abbrev pub owned_browser_observed : String
owned_browser_observed = "owned_browser_observed"

pub record FailureInfo : Type 0 where
  pub stage : String
  pub message : String
  pub not_implemented : Bool

pub record Session : Type 0 where
  pub id : String
  pub profile_id : String
  pub profile_name : String
  pub source_resolution_id : String
  pub state : SessionState
  pub failure : Option FailureInfo
  pub active_challenge_id : String
  pub started_at : ℕ
  pub updated_at : ℕ
  pub stopped_at : Option ℕ

pub record Challenge : Type 0 where
  pub id : String
  pub session_id : String
  pub resolution_id : String
  pub provider : String
  pub stage : String
  pub kind : String
  pub prompt : String
  pub open_url : String
  pub status : ChallengeStatus
  pub completion_mode : String
  pub created_at : ℕ
  pub updated_at : ℕ

pub record ResolutionInput : Type 0 where
  pub provider : String
  pub kind : String
  pub link_redacted : String
  pub interactive_provider : Bool

pub record Resolution : Type 0 where
  pub id : String
  pub provider : String
  pub resolution_method : String
  pub input : ResolutionInput
  pub artifact : Option ResolutionArtifact
  pub state : ResolutionState
  pub credentials : Option ResolutionCredentials
  pub export : ResolutionExportStatus
  pub failure : Option FailureInfo
  pub active_challenge_id : String
  pub started_at : ℕ
  pub updated_at : ℕ
  pub resolved_at : Option ℕ
  pub expired_at : Option ℕ
  pub remote_vps : Option RemoteVpsArtifactSummary

pub record Event : Type 0 where
  pub id : String
  pub timestamp : ℕ
  pub session_id : String
  pub resolution_id : String
  pub type : EventType
  pub state : SessionState
  pub resolution_state : ResolutionState
  pub stage : String
  pub message : String
  pub connections : ℤ
  pub ready_workers : ℤ
  pub restart : ℤ
  pub backoff : String
  pub challenge : Option Challenge
  pub artifact : Option ResolutionArtifact
