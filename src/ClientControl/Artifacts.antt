-- ===== src/ClientControl/Artifacts.antt =====
-- pkg/clientcontrol/provider_runtime_artifacts.go and internal/provider: what a provider answers, and
-- what the host shows of it. The stages of a probe and the localised texts of a descriptor are left
-- out. An instant is a number of nanoseconds.
pub mod Contract
pub mod Privacy
pub mod Failure
use Prim.Native.String.{String}
use vk_turn_proxy_go.Base.{ℕ, Bool, false, List, [], Option, none}
use vk_turn_proxy_go.Base.Int.{ℤ, pos}
use vk_turn_proxy_go.ClientControl.Execution.{RuntimeExecutionPlanDescriptor}

abbrev pub conference_room : String
conference_room = "conference_room"

abbrev pub camera_stream : String
camera_stream = "camera_stream"

abbrev pub export_handoff : String
export_handoff = "export_handoff"

abbrev pub open_room : String
open_room = "open_room"

abbrev pub open_camera : String
open_camera = "open_camera"

abbrev pub open_archive : String
open_archive = "open_archive"

pub data ActionExecutionOwner : Type 0 where
  owner_host owner_shell_local owner_shell_external : ActionExecutionOwner

-- What a provider answers.
pub record Credentials : Type 0 where
  pub username : String
  pub password : String
  pub address : String
  pub ttl : ℤ

pub record ProbeResolution : Type 0 where
  pub username_redacted : String
  pub password_redacted : String
  pub address : String

pub record ProbeProviderError : Type 0 where
  pub stage : String
  pub code : String

pub record ProbeOutcome : Type 0 where
  pub result_kind : String
  pub resolution : Option ProbeResolution
  pub room_url : Option String  -- of a conference room
  pub camera : Option (String × String)  -- the URLs of a camera and of its archive
  pub provider_error : Option ProbeProviderError

pub record ProbeArtifact : Type 0 where
  pub link_redacted : String
  pub invite_url_redacted : String
  pub normalized_join_token_redacted : String
  pub outcome : ProbeOutcome

pub record ProviderResolution : Type 0 where
  pub credentials : Credentials
  pub metadata : List (String × String)
  pub artifact : Option ProbeArtifact

-- `provider.Resolution{}`.
abbrev pub no_answer : ProviderResolution
no_answer = record {
  credentials = record { username = ""; password = ""; address = ""; ttl = pos 0 };
  metadata = [];
  artifact = none;
}

-- What the methods here read of a descriptor.
pub record ProviderDescriptor : Type 0 where
  pub id : String
  pub input_kind : String
  pub challenge_modes : List String
  pub artifact_families : List String
  pub potential_actions : List String

-- What the host shows of an answer.
pub record ResolutionCredentials : Type 0 where
  pub address : String
  pub username_redacted : String
  pub password_redacted : String

pub record ResolutionExportStatus : Type 0 where
  pub supported : Bool
  pub expires_at : Option ℕ
  pub expiry_source : String

abbrev pub no_export : ResolutionExportStatus
no_export = record { supported = false; expires_at = none; expiry_source = "" }

pub record RedactionSummary : Type 0 where
  pub ordinary_reads : String
  pub events : String
  pub diagnostics : String
  pub persisted_state : String
  pub export : String

pub record RemoteVpsArtifactSummary : Type 0 where
  pub endpoint_id : String
  pub issuer : String
  pub audience : String
  pub generation : ℕ
  pub source_id : String
  pub offer_id : String
  pub artifact_id : String
  pub health_status : String
  pub evidence_status : String
  pub validation_status : String
  pub validation_reason : String
  pub expires_at : Option ℕ
  pub redaction : RedactionSummary

pub record ResolutionArtifactSummary : Type 0 where
  pub generic_turn : Option ResolutionCredentials
  pub conference_room : Option String
  pub camera_stream : Option (String × String)
  pub remote_vps : Option RemoteVpsArtifactSummary

abbrev pub no_summary : ResolutionArtifactSummary
no_summary = record {
  generic_turn = none;
  conference_room = none;
  camera_stream = none;
  remote_vps = none;
}

pub record ResolutionAction : Type 0 where
  pub id : String
  pub execution_owner : ActionExecutionOwner
  pub execution_plans : List RuntimeExecutionPlanDescriptor

pub record ResolutionArtifact : Type 0 where
  pub family : String
  pub access_methods : List String
  pub actions : List ResolutionAction
  pub summary : ResolutionArtifactSummary
