-- ===== src/Catalog/Service.antt =====
-- internal/vpscatalog/service.go: the state of the service, and what its handlers share. A method that
-- holds the mutex is one step; what `Service.now` answers is an argument. Maps and slices are values,
-- so a copy of the authorizer, of the metrics or of the records is the thing itself.
pub mod Issue
pub mod Handlers
pub mod Ttl
pub mod Sections
pub mod Once
pub mod Guard
pub mod Retry
use Prim.Native.String.{String, ◌++◌}
use text.Mathlib.Text.{◌==◌ as str_eq}
use vk_turn_proxy_go.Base.{
  ℕ, ◌+◌, ◌%◌, ◌≡◌, refl, inl, inr, Bool-cases, Bool, true, false, ◌||◌, List, [], ◌∷◌,
  ◌++◌ as append, Option, none, some, if◌then◌else◌,
}
use vk_turn_proxy_go.Base.Text.{is_empty, trim_space, cut_prefix}
use vk_turn_proxy_go.Base.TextDict.{lookup, insert}
use vk_turn_proxy_go.Base.Result.{Result}
use vk_turn_proxy_go.Catalog.Types.{CatalogSnapshot}
use vk_turn_proxy_go.Catalog.Clone.{clone_snapshot}
use vk_turn_proxy_go.Catalog.Messages.{
  AuditContext, ArtifactIssueRequest, ArtifactIssueResponse, AuditRecord, MetricsSnapshot,
}

pub record ServiceOptions : Type 0 where
  pub snapshot : CatalogSnapshot
  pub snapshot_provider : Option (ℕ → CatalogSnapshot)
  pub authorizer : List (String × List String)

pub record Service : Type 0 where
  pub snapshot : CatalogSnapshot
  pub snapshot_provider : Option (ℕ → CatalogSnapshot)
  pub authorizer : List (String × List String)
  pub issues : List (String × ArtifactIssueResponse)
  pub audit : List AuditRecord
  pub metrics : MetricsSnapshot

-- What the handlers read of a request: the method, two headers, and what the JSON decoder makes of
-- the body.
pub record Request : Type 0 where
  pub method : String
  pub authorization : String
  pub x_actor : String
  pub body : Result String ArtifactIssueRequest

-- The provider's snapshot of an instant, if there is one, or else the one that is kept.
unfoldable pub snapshot_of : Option (ℕ → CatalogSnapshot) → CatalogSnapshot → ℕ → CatalogSnapshot
unfolding clone_snapshot
snapshot_of none kept now = kept
snapshot_of (some f) kept now = clone_snapshot (f now)

unfoldable pub new_service : ServiceOptions → ℕ → Service
unfolding clone_snapshot snapshot_of
new_service opts now = record {
  snapshot = snapshot_of opts.snapshot_provider (clone_snapshot opts.snapshot) now;
  snapshot_provider = opts.snapshot_provider;
  authorizer = opts.authorizer;
  issues = [];
  audit = [];
  metrics = record {
    catalog_reads = [];
    artifact_issues = [];
    authorization = [];
    evidence_outcomes = [];
  };
}

-- `s.snapshotForRequestLocked(now)`, without the copy that it answers.
unfoldable pub refresh : ℕ → Service → Service
unfolding snapshot_of
refresh now s = record s { snapshot = snapshot_of s.snapshot_provider s.snapshot now }

abbrev pub or_zero : Option ℕ → ℕ
or_zero none = 0
or_zero (some n) = n

-- `m[key]++`.
unfoldable pub increment : String → List (String × ℕ) → List (String × ℕ)
unfolding lookup insert
increment key m = insert key ((or_zero (lookup key m) + 1) % 18446744073709551616) m

unfoldable pub bearer_token : String → String
unfolding trim_space
bearer_token value = elim (cut_prefix "Bearer " (trim_space value)) [
  | none ↦ ""
  | some token ↦ trim_space token
]

abbrev pub or_none : Option (List String) → List String
or_none none = []
or_none (some scopes) = scopes

-- `TokenAuthorizer.ScopesForToken`.
unfoldable pub scopes_for_token : List (String × List String) → String → List String
unfolding trim_space lookup
scopes_for_token a token = or_none (lookup (trim_space token) a)

abbrev pub has_scope : String → List String → Bool
has_scope scope [] = false
has_scope scope (s ∷ ss) = str_eq s scope || has_scope scope ss

unfoldable pub count_authorization : String → Service → Service
unfolding increment
count_authorization status s = record s {
  metrics = record s.metrics {
    authorization = increment ("status=" ++ status) s.metrics.authorization;
  };
}

unfoldable pub authorize : Request → String → Service → Bool × Service
unfolding bearer_token scopes_for_token count_authorization
authorize r scope s =
    let token = bearer_token r.authorization in
    if is_empty token
    then (false, count_authorization "missing" s)
    else if has_scope scope (scopes_for_token s.authorizer token)
    then (true, count_authorization "ok" s)
    else (false, count_authorization "denied" s)

-- All that an authorization changes is a counter.
pub authorize_counts :
    (r : Request) (scope : String) (s : Service)
    → (status : String) × ((authorize r scope s).1 ≡ count_authorization status s)
unfolding authorize
authorize_counts r scope s =
    let token = bearer_token r.authorization in
    elim (Bool-cases (is_empty token)) [
      | inl e ↦ ("missing", rw e refl)
      | inr e ↦ elim (Bool-cases (has_scope scope (scopes_for_token s.authorizer token))) [
        | inl h ↦ ("ok", rw (e, h) refl)
        | inr h ↦ ("denied", rw (e, h) refl)
      ]
    ]

unfoldable pub audit_actor : Request → AuditContext → String
unfolding trim_space
audit_actor r audit = if is_empty audit.actor then trim_space r.x_actor else trim_space audit.actor

-- `recordAudit` of a record whose instant is still to be filled in.
unfoldable pub record_audit : ℕ → AuditRecord → Service → Service
record_audit now entry s = record s {
  audit = append s.audit (record entry { timestamp = now } ∷ []);
}
