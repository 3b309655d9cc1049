-- ===== src/Catalog/Samples.antt =====
-- A catalog with one offer, and requests for it. The library of the tests gives each sum the same digits.
use Prim.Native.String.{◌++◌}
use vk_turn_proxy_go.Base.{true, false, [], ◌∷◌, none, some}
use vk_turn_proxy_go.Base.Int.{pos}
use vk_turn_proxy_go.Base.Result.{ok}
use vk_turn_proxy_go.Catalog.Types.{
  Health, Evidence, ArtifactOffer, ProviderSource, CatalogSnapshot, auth_scope_artifact_issue,
  default_redaction_policy,
}
use vk_turn_proxy_go.Catalog.Messages.{ArtifactIssueRequest, ArtifactIssueResponse}
use vk_turn_proxy_go.Catalog.Library.{Library}
use vk_turn_proxy_go.Catalog.Validation.{ValidationOptions}
use vk_turn_proxy_go.Catalog.Service.{ServiceOptions, Request}
use vk_turn_proxy_go.Catalog.Service.Issue.{issue_response}
use vk_turn_proxy_go.Catalog.Service.Handlers.{Times}

abbrev pub library : Library
library = record {
  quote = λ s. "\"" ++ s ++ "\"";
  sprintf = λ s. s;
  sprint = λ n. "7";
  rfc3339 = λ n. "2026-01-01T00:00:00Z";
  rfc3339_nano = λ n. "2026-01-01T00:00:00Z";
  sha256_hex = λ n s. "0123456789abcdef";
  marshal = λ s. some "{}";
}

abbrev pub health : Health
health = record {
  status = "healthy";
  checked_at = none;
  expires_at = some 900000000000;
  degraded_reason = "";
  message = "";
  limit_domain = "";
}

abbrev pub evidence : Evidence
evidence = record {
  kind = "probe";
  subject = "";
  status = "fresh";
  observed_at = none;
  expires_at = some 900000000000;
  message = "";
  limit_domain = "";
}

abbrev pub offer : ArtifactOffer
offer = record {
  id = "turn-handoff";
  family = "generic_turn";
  access_methods = "reference" ∷ [];
  actions = "issue" ∷ [];
  remote_endpoint_family = "";
  remote_endpoint_role = "";
  compatible_profile_kinds = [];
  max_ttl_seconds = pos 300;
  health = health;
  evidence = evidence ∷ [];
  redaction = default_redaction_policy;
  provenance = record {
    endpoint_id = "";
    issuer = "";
    audience = "";
    generation = 0;
    source_id = "";
    offer_id = "";
  };
  metadata = [];
}

abbrev pub source : ProviderSource
source = record {
  id = "managed-turn";
  provider_id = "generic-turn";
  display_name = "Managed TURN";
  description = "";
  source_family = "managed";
  health = health;
  evidence = evidence ∷ [];
  artifact_offers = offer ∷ [];
  metadata = [];
}

abbrev pub snapshot : CatalogSnapshot
snapshot = record {
  version = "1";
  generated_at = 100000000000;
  expires_at = 900000000000;
  issuer = "vk-turn-proxy-go";
  audience = "clientcontrol";
  endpoint_id = "vps-main";
  generation = 7;
  integrity = record { mode = ""; digest = ""; signature = "" };
  sources = source ∷ [];
}

abbrev pub options : ValidationOptions
options = record {
  now = 200000000000;
  expected_issuer = "vk-turn-proxy-go";
  expected_audience = "";
  expected_endpoint_id = "vps-main";
  highest_accepted_generation = 7;
  require_signed = false;
}

abbrev pub service_options : ServiceOptions
service_options = record {
  snapshot = snapshot;
  snapshot_provider = none;
  authorizer = ("issue-token", auth_scope_artifact_issue ∷ []) ∷ [];
}

abbrev pub issue_request : ArtifactIssueRequest
issue_request = record {
  source_id = "managed-turn";
  offer_id = "turn-handoff";
  operation_id = "op-1";
  ttl_seconds = pos 900;
  export_secret = true;
  audit = record { actor = "operator"; request_id = ""; reason = ""; metadata = [] };
}

-- The same operation, of another offer and without the export.
abbrev pub retry_request : ArtifactIssueRequest
retry_request = record issue_request { offer_id = "other"; export_secret = false }

abbrev pub request : Request
request = record {
  method = "POST";
  authorization = "Bearer issue-token";
  x_actor = "";
  body = ok issue_request;
}

abbrev pub times : Times
times = record { now = 200000000000; logged = 200000000001; clock = 200000000002 }

abbrev pub later : Times
later = record { now = 800000000000; logged = 800000000001; clock = 800000000002 }

abbrev pub response : ArtifactIssueResponse
response = issue_response library snapshot issue_request source offer 200000000000
