-- ===== src/Catalog/Messages.antt =====
-- internal/vpscatalog/types.go: what a client asks the service for and is answered, and what the
-- service keeps of it.
use Prim.Native.String.{String}
use vk_turn_proxy_go.Base.{ℕ, Bool, List, Option}
use vk_turn_proxy_go.Base.Int.{ℤ}
use vk_turn_proxy_go.Catalog.Types.{RedactionPolicy, Health, Evidence, ArtifactProvenance}

pub record AuditContext : Type 0 where
  pub actor : String
  pub request_id : String
  pub reason : String
  pub metadata : List (String × String)

pub record ArtifactIssueRequest : Type 0 where
  pub source_id : String
  pub offer_id : String
  pub operation_id : String
  pub ttl_seconds : ℤ
  pub export_secret : Bool
  pub audit : AuditContext

pub record SourceReference : Type 0 where
  pub endpoint_id : String
  pub issuer : String
  pub audience : String
  pub generation : ℕ
  pub provider_id : String
  pub source_id : String

pub record ArtifactReference : Type 0 where
  pub id : String
  pub source_id : String
  pub offer_id : String
  pub family : String
  pub access_methods : List String
  pub actions : List String
  pub remote_endpoint_family : String
  pub remote_endpoint_role : String
  pub compatible_profile_kinds : List String
  pub health : Health
  pub evidence : List Evidence
  pub expires_at : ℕ

pub record ArtifactExport : Type 0 where
  pub kind : String
  pub payload : String
  pub payload_redacted : Bool

pub record ArtifactIssueResponse : Type 0 where
  pub operation_id : String
  pub issued_at : ℕ
  pub expires_at : ℕ
  pub source : SourceReference
  pub artifact : ArtifactReference
  pub export : Option ArtifactExport
  pub redaction : RedactionPolicy
  pub provenance : ArtifactProvenance

pub record AuditRecord : Type 0 where
  pub timestamp : ℕ
  pub action : String
  pub scope : String
  pub status : String
  pub source_family : String
  pub artifact_family : String
  pub source_id : String
  pub offer_id : String
  pub operation_id : String
  pub reason : String
  pub actor : String

-- Each map counts, under the text of a label, modulo 2^64.
pub record MetricsSnapshot : Type 0 where
  pub catalog_reads : List (String × ℕ)
  pub artifact_issues : List (String × ℕ)
  pub authorization : List (String × ℕ)
  pub evidence_outcomes : List (String × ℕ)
