-- ===== src/Catalog/Types.antt =====
-- internal/vpscatalog/types.go. An instant is its number of nanoseconds since Go's zero time, so that
-- `IsZero` is the test for 0, a `*time.Time` is an option, and a location is left out. A Go `int` is
-- an integer, and a map of strings the list of its entries.
use Prim.Native.String.{String}
use vk_turn_proxy_go.Base.{ℕ, List, Option}
use vk_turn_proxy_go.Base.Int.{ℤ}

abbrev pub schema_version : String
schema_version = "1"

abbrev pub integrity_mode_signed_snapshot_v1 : String
integrity_mode_signed_snapshot_v1 = "signed_snapshot_v1"

abbrev pub auth_scope_catalog_read : String
auth_scope_catalog_read = "catalog_read"

abbrev pub auth_scope_artifact_issue : String
auth_scope_artifact_issue = "artifact_issue_export"

abbrev pub auth_scope_admin_mutation : String
auth_scope_admin_mutation = "admin_mutation"

abbrev pub health_status_healthy : String
health_status_healthy = "healthy"

abbrev pub health_status_degraded : String
health_status_degraded = "degraded"

abbrev pub health_status_unavailable : String
health_status_unavailable = "unavailable"

abbrev pub health_status_missing_evidence : String
health_status_missing_evidence = "missing_evidence"

abbrev pub evidence_status_fresh : String
evidence_status_fresh = "fresh"

abbrev pub evidence_status_stale : String
evidence_status_stale = "stale"

abbrev pub evidence_status_missing : String
evidence_status_missing = "missing"

abbrev pub evidence_status_degraded : String
evidence_status_degraded = "degraded"

abbrev pub evidence_status_unavailable : String
evidence_status_unavailable = "unavailable"

abbrev pub evidence_status_unknown_limit : String
evidence_status_unknown_limit = "unknown_limit"

pub data ValidationStatus : Type 0 where
  valid invalid stale unsigned wrong_audience wrong_issuer wrong_endpoint rollback :
      ValidationStatus
  unsupported missing_evidence degraded unavailable : ValidationStatus

-- `string(status)`.
abbrev pub status_text : ValidationStatus → String
status_text valid = "valid"
status_text invalid = "invalid"
status_text stale = "stale"
status_text unsigned = "unsigned"
status_text wrong_audience = "wrong_audience"
status_text wrong_issuer = "wrong_issuer"
status_text wrong_endpoint = "wrong_endpoint"
status_text rollback = "rollback"
status_text unsupported = "unsupported"
status_text missing_evidence = "missing_evidence"
status_text degraded = "degraded"
status_text unavailable = "unavailable"

pub record RedactionPolicy : Type 0 where
  pub ordinary_reads : String
  pub events : String
  pub diagnostics : String
  pub persisted_state : String
  pub export : String

abbrev pub default_redaction_policy : RedactionPolicy
default_redaction_policy = record {
  ordinary_reads = "reference_only";
  events = "summary_only";
  diagnostics = "summary_only";
  persisted_state = "reference_only";
  export = "secret_export";
}

pub record SnapshotIntegrity : Type 0 where
  pub mode : String
  pub digest : String
  pub signature : String

pub record Health : Type 0 where
  pub status : String
  pub checked_at : Option ℕ
  pub expires_at : Option ℕ
  pub degraded_reason : String
  pub message : String
  pub limit_domain : String

pub record Evidence : Type 0 where
  pub kind : String
  pub subject : String
  pub status : String
  pub observed_at : Option ℕ
  pub expires_at : Option ℕ
  pub message : String
  pub limit_domain : String

pub record ArtifactProvenance : Type 0 where
  pub endpoint_id : String
  pub issuer : String
  pub audience : String
  pub generation : ℕ
  pub source_id : String
  pub offer_id : String

pub record ArtifactOffer : Type 0 where
  pub id : String
  pub family : String
  pub access_methods : List String
  pub actions : List String
  pub remote_endpoint_family : String
  pub remote_endpoint_role : String
  pub compatible_profile_kinds : List String
  pub max_ttl_seconds : ℤ
  pub health : Health
  pub evidence : List Evidence
  pub redaction : RedactionPolicy
  pub provenance : ArtifactProvenance
  pub metadata : List (String × String)

pub record ProviderSource : Type 0 where
  pub id : String
  pub provider_id : String
  pub display_name : String
  pub description : String
  pub source_family : String
  pub health : Health
  pub evidence : List Evidence
  pub artifact_offers : List ArtifactOffer
  pub metadata : List (String × String)

pub record CatalogSnapshot : Type 0 where
  pub version : String
  pub generated_at : ℕ
  pub expires_at : ℕ
  pub issuer : String
  pub audience : String
  pub endpoint_id : String
  pub generation : ℕ
  pub integrity : SnapshotIntegrity
  pub sources : List ProviderSource
