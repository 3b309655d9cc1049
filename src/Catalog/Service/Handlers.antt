-- ===== src/Catalog/Service/Handlers.antt =====
-- internal/vpscatalog/service.go: the handlers. Whether a path reaches a handler is decided by
-- `http.ServeMux`; an Endpoint is the handler that it reaches.
use Prim.Native.String.{String, ◌++◌}
use text.Mathlib.Text.{◌==◌ as str_eq}
use vk_turn_proxy_go.Base.{ℕ, not, List, [], if◌then◌else◌}
use vk_turn_proxy_go.Base.Text.{is_empty, trim_space}
use vk_turn_proxy_go.Base.Result.{Result, ok, err}
use vk_turn_proxy_go.Catalog.Types.{
  CatalogSnapshot, status_text, auth_scope_catalog_read, auth_scope_artifact_issue,
  auth_scope_admin_mutation,
}
use vk_turn_proxy_go.Catalog.Messages.{
  AuditContext, ArtifactIssueRequest, ArtifactIssueResponse, AuditRecord, MetricsSnapshot,
}
use vk_turn_proxy_go.Catalog.Clone.{clone_snapshot}
use vk_turn_proxy_go.Catalog.Library.{Library}
use vk_turn_proxy_go.Catalog.Service.{
  Service, Request, refresh, increment, authorize, audit_actor, record_audit,
}
use vk_turn_proxy_go.Catalog.Service.Issue.{
  Outcome, replayed, not_found, not_ready, issued, issue_locked,
}

pub data Endpoint : Type 0 where
  catalog_path artifact_issue_path metrics_path audit_path admin_path : Endpoint

pub data Payload : Type 0 where
  snapshot_payload : CatalogSnapshot → Payload
  issue_payload : ArtifactIssueResponse → Payload
  metrics_payload : MetricsSnapshot → Payload
  audit_payload : List AuditRecord → Payload
  error_payload : (error_code message : String) → Payload

-- The HTTP status, and what is encoded.
pub record Reply : Type 0 where
  pub status : ℕ
  pub payload : Payload

-- What `Service.now` answers first and then in recordAudit, and what `time.Now` answers.
pub record Times : Type 0 where
  pub now : ℕ
  pub logged : ℕ
  pub clock : ℕ

abbrev pub write_error : (status : ℕ) (error_code message : String) → Reply
write_error status error_code message = record {
  status = status;
  payload = error_payload error_code message;
}

abbrev pub write_method_not_allowed : String → Reply
write_method_not_allowed method =
    write_error 405 "method_not_allowed" ("method " ++ method ++ " is not allowed")

abbrev pub err_forbidden : String
err_forbidden = "vps catalog request is forbidden"

-- A record of an action on nothing in particular.
abbrev pub plain_record : (action scope status reason actor : String) → AuditRecord
plain_record action scope status reason actor = record {
  timestamp = 0;
  action = action;
  scope = scope;
  status = status;
  source_family = "";
  artifact_family = "";
  source_id = "";
  offer_id = "";
  operation_id = "";
  reason = reason;
  actor = actor;
}

abbrev pub no_context : AuditContext
no_context = record { actor = ""; request_id = ""; reason = ""; metadata = [] }

-- A denied request is recorded, and refused.
unfoldable pub deny :
    Times → Request → (action scope error_code : String) → Service → Reply × Service
unfolding record_audit audit_actor
deny t r action scope error_code s = (
  write_error 403 error_code err_forbidden,
  record_audit t.logged
      (plain_record action scope "denied" "authorization_failed" (audit_actor r no_context)) s,
)

-- The locked part of handleCatalog.
unfoldable pub catalog_locked : ℕ → Service → Service
unfolding increment refresh
catalog_locked now s = refresh now (record s {
  metrics = record s.metrics { catalog_reads = increment "status=ok" s.metrics.catalog_reads };
})

unfoldable pub handle_catalog : Times → Request → Service → Reply × Service
unfolding authorize deny catalog_locked record_audit audit_actor clone_snapshot
handle_catalog t r s =
    let (granted, s1) = authorize r auth_scope_catalog_read s in
    let s2 = catalog_locked t.now s1 in
    if not (str_eq r.method "GET")
    then (write_method_not_allowed r.method, s)
    else if not granted
    then deny t r "catalog_read" auth_scope_catalog_read "catalog_forbidden" s1
    else (
      record { status = 200; payload = snapshot_payload (clone_snapshot s2.snapshot) },
      record_audit t.logged
          (plain_record "catalog_read" auth_scope_catalog_read "ok" "" (audit_actor r no_context))
          s2,
    )

unfoldable pub handle_admin : Times → Request → Service → Reply × Service
unfolding authorize deny
handle_admin t r s =
    let (granted, s1) = authorize r auth_scope_admin_mutation s in
    if not granted
    then deny t r "admin_mutation" auth_scope_admin_mutation "admin_forbidden" s1
    else (
      write_error 501 "admin_not_implemented"
          "catalog admin mutation API is not implemented by this bounded service",
      s1,
    )

unfoldable pub handle_metrics : Times → Request → Service → Reply × Service
unfolding authorize deny record_audit audit_actor
handle_metrics t r s =
    let (granted, s1) = authorize r auth_scope_admin_mutation s in
    let s2 =
      record_audit t.logged
        (plain_record "metrics_read" auth_scope_admin_mutation "ok" "" (audit_actor r no_context))
        s1 in
    if not (str_eq r.method "GET")
    then (write_method_not_allowed r.method, s)
    else if not granted
    then deny t r "metrics_read" auth_scope_admin_mutation "metrics_forbidden" s1
    else (record { status = 200; payload = metrics_payload s2.metrics }, s2)

unfoldable pub handle_audit : Times → Request → Service → Reply × Service
unfolding authorize deny record_audit audit_actor
handle_audit t r s =
    let (granted, s1) = authorize r auth_scope_admin_mutation s in
    let s2 =
      record_audit t.logged
        (plain_record "audit_read" auth_scope_admin_mutation "ok" "" (audit_actor r no_context))
        s1 in
    if not (str_eq r.method "GET")
    then (write_method_not_allowed r.method, s)
    else if not granted
    then deny t r "audit_read" auth_scope_admin_mutation "audit_forbidden" s1
    else (record { status = 200; payload = audit_payload s2.audit }, s2)

abbrev pub trim_request : ArtifactIssueRequest → ArtifactIssueRequest
trim_request q = record q {
  source_id = trim_space q.source_id;
  offer_id = trim_space q.offer_id;
  operation_id = trim_space q.operation_id;
}

-- A record about the offer that is asked for.
abbrev pub issue_record :
    Request
    → ArtifactIssueRequest
    → (status source_family artifact_family reason : String) → AuditRecord
issue_record r q status source_family artifact_family reason =
    record (plain_record "artifact_issue" auth_scope_artifact_issue status reason
      (audit_actor r q.audit)) {
        source_family = source_family;
        artifact_family = artifact_family;
        source_id = q.source_id;
        offer_id = q.offer_id;
      }

-- What is recorded of an outcome.
unfoldable pub outcome_record : Request → ArtifactIssueRequest → Outcome → AuditRecord
unfolding audit_actor
outcome_record r q (replayed response) =
    issue_record r q "idempotent_retry" "" response.artifact.family ""
outcome_record r q not_found = issue_record r q "not_found" "" "" "not_found"
outcome_record r q (not_ready source offer result) =
    issue_record r q (status_text result.status) source.source_family offer.family result.reason
outcome_record r q (issued source offer response) =
    issue_record r q "ok" source.source_family offer.family ""

-- What is answered to an outcome.
unfoldable pub outcome_reply : Outcome → Reply
outcome_reply (replayed response) = record { status = 200; payload = issue_payload response }
outcome_reply not_found =
    write_error 404 "artifact_offer_not_found" "vps catalog artifact offer was not found"
outcome_reply (not_ready source offer result) =
    write_error 409 "artifact_offer_not_ready"
      ("vps catalog artifact offer is not ready: " ++ result.message)
outcome_reply (issued source offer response) = record {
  status = 200;
  payload = issue_payload response;
}

module _ (lib : Library) where
  -- handleArtifactIssue of a request that was decoded.
  unfoldable pub handle_issue_request :
      Times → Request → ArtifactIssueRequest → Service → Reply × Service
  unfolding authorize record_audit outcome_record outcome_reply issue_locked audit_actor
  handle_issue_request t r q s =
      let (granted, s1) = authorize r auth_scope_artifact_issue s in
      let (outcome, s2) = issue_locked lib t.clock t.now q s1 in
      if is_empty q.operation_id
      then (
        write_error 400 "operation_id_required" "vps catalog operation_id is required",
        record_audit t.logged (issue_record r q "denied" "" "" "operation_id_missing") s,
      )
      else if not granted
      then (
        write_error 403 "artifact_issue_forbidden" err_forbidden,
        record_audit t.logged (issue_record r q "denied" "" "" "authorization_failed") s1,
      )
      else (outcome_reply outcome, record_audit t.logged (outcome_record r q outcome) s2)

  abbrev pub handle_decoded :
      Times → Request → Result String ArtifactIssueRequest → Service → Reply × Service
  handle_decoded t r (err message) s = (write_error 400 "invalid_json" message, s)
  handle_decoded t r (ok q) s = handle_issue_request t r (trim_request q) s

  unfoldable pub handle_artifact_issue : Times → Request → Service → Reply × Service
  unfolding handle_issue_request
  handle_artifact_issue t r s =
      if not (str_eq r.method "POST")
      then (write_method_not_allowed r.method, s)
      else handle_decoded t r r.body s

  -- `Service.Handler`.
  unfoldable pub serve : Endpoint → Times → Request → Service → Reply × Service
  unfolding handle_catalog handle_artifact_issue handle_metrics handle_audit handle_admin
  serve catalog_path t r s = handle_catalog t r s
  serve artifact_issue_path t r s = handle_artifact_issue t r s
  serve metrics_path t r s = handle_metrics t r s
  serve audit_path t r s = handle_audit t r s
  serve admin_path t r s = handle_admin t r s
