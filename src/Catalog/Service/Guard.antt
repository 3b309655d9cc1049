-- ===== src/Catalog/Service/Guard.antt =====
-- What the scopes of a token keep from a request, and what is recorded.
use Prim.Native.String.{String}
use text.Mathlib.Text.{◌==◌ as str_eq}
use text.Mathlib.TextEquality.{eq_iff}
use vk_turn_proxy_go.Base.{
  ℕ, ◌≡◌, ◌≢◌, refl, ap, subst, ◌∙◌, ◌⊎◌, inl, inr, true, false, not, List, [], ◌∷◌, ◌++◌, arith,
  if◌then◌else◌, if_intro, Bool-cases, Option, none, some,
}
use vk_turn_proxy_go.Base.TextDict.{lookup}
use vk_turn_proxy_go.Base.Text.{is_empty}
use vk_turn_proxy_go.Base.Result.{Result, ok, err}
use vk_turn_proxy_go.Catalog.Types.{
  auth_scope_catalog_read, auth_scope_artifact_issue, auth_scope_admin_mutation,
}
use vk_turn_proxy_go.Catalog.Messages.{ArtifactIssueRequest, ArtifactIssueResponse, AuditRecord}
use vk_turn_proxy_go.Catalog.Library.{Library}
use vk_turn_proxy_go.Catalog.Service.{
  Service, Request, authorize, bearer_token, scopes_for_token, has_scope, count_authorization,
  authorize_counts, audit_actor, record_audit, refresh,
}
use vk_turn_proxy_go.Catalog.Service.Issue.{
  Outcome, replayed, not_found, not_ready, issued, issue_locked, settle, settled,
}
use vk_turn_proxy_go.Catalog.Service.Handlers.{
  Endpoint, catalog_path, artifact_issue_path, metrics_path, audit_path, admin_path, Reply, Times,
  serve, handle_catalog, handle_artifact_issue, handle_issue_request, handle_metrics, handle_audit,
  handle_admin, handle_decoded, deny, catalog_locked, outcome_record, trim_request, plain_record,
  no_context, write_method_not_allowed,
}

abbrev pub scope_of : Endpoint → String
scope_of catalog_path = auth_scope_catalog_read
scope_of artifact_issue_path = auth_scope_artifact_issue
scope_of metrics_path = auth_scope_admin_mutation
scope_of audit_path = auth_scope_admin_mutation
scope_of admin_path = auth_scope_admin_mutation

abbrev pub IsIn : String → List String → Type 0
IsIn scope [] = ⊥
IsIn scope (s ∷ ss) = (s ≡ scope) ⊎ IsIn scope ss

-- The request carries a bearer token, and the authorizer gives the token the scope.
abbrev pub IsGranted : String → List (String × List String) → Request → Type 0
IsGranted scope a r =
    (bearer_token r.authorization ≢ "")
    × IsIn scope (scopes_for_token a (bearer_token r.authorization))

has_scope-IsIn : (scope : String) (ss : List String) → has_scope scope ss ≡ true → IsIn scope ss
has_scope-IsIn scope [] h = cc
has_scope-IsIn scope (s ∷ ss) h = elim (Bool-cases (str_eq s scope)) [
  | inl e ↦ inl ((eq_iff s scope).0 e)
  | inr e ↦ inr (has_scope-IsIn scope ss (rw e at h))
]

authorize-IsGranted :
    (r : Request) (scope : String) (s : Service)
    → not (authorize r scope s).0 ≡ false
    → IsGranted scope s.authorizer r
unfolding authorize
authorize-IsGranted r scope s h =
    let token = bearer_token r.authorization in
    elim (Bool-cases (is_empty token)) [
      | inl e ↦ let q = rw e at h in cc
      | inr e ↦ elim (Bool-cases (has_scope scope (scopes_for_token s.authorizer token))) [
        | inl g ↦ (λ z. let q = subst (λ x. is_empty x ≡ false) z e in cc, has_scope-IsIn scope _ g)
        | inr g ↦ let q = rw (e, g) at h in cc
      ]
    ]

authorize-audit :
    (r : Request) (scope : String) (s : Service) → (authorize r scope s).1.audit ≡ s.audit
unfolding count_authorization
authorize-audit r scope s =
    let (status, e) = authorize_counts r scope s in ap (λ (x : Service). x.audit) e

-- The log grows by a record of the scope, made at the time of logging.
abbrev pub IsLogged : String → Times → (before after : Service) → Type 0
IsLogged scope t before after =
    (entry : AuditRecord) × (after.audit ≡ before.audit ++ entry ∷ [])
    × (entry.scope ≡ scope)
    × (entry.timestamp ≡ t.logged)

-- What holds of an answer: it is an error, or it is granted and logged.
abbrev IsGuarded : Endpoint → Times → Request → Service → Reply × Service → Type 0
IsGuarded e t r s x =
    (x.0.status ≢ 200) ⊎ (IsGranted (scope_of e) s.authorizer r × IsLogged (scope_of e) t s x.1)

deny-IsGuarded :
    (e : Endpoint) (t : Times) (r : Request) (s s1 : Service) (action scope error_code : String)
    → IsGuarded e t r s (deny t r action scope error_code s1)
unfolding deny
deny-IsGuarded e t r s s1 action scope error_code = inl (λ h. omega (arith, h))

-- A granted request is logged by the record that the handler makes.
record_audit-IsGuarded :
    (e : Endpoint) (t : Times) (r : Request) (s s2 : Service) (entry : AuditRecord)
    → not (authorize r (scope_of e) s).0 ≡ false
    → entry.scope ≡ scope_of e
    → s2.audit ≡ s.audit
    → IsGranted (scope_of e) s.authorizer r
      × IsLogged (scope_of e) t s (record_audit t.logged entry s2)
unfolding record_audit
record_audit-IsGuarded e t r s s2 entry g p q = (
  authorize-IsGranted r (scope_of e) s g,
  (
    record entry { timestamp = t.logged },
    ap (λ l. l ++ record entry { timestamp = t.logged } ∷ []) q,
    p,
    refl,
  ),
)

-- The handlers that read: a test of the method, a test of the scope, and the answer.
read-IsGuarded :
    (e : Endpoint) (t : Times) (r : Request) (s : Service) (action error_code : String)
    (granted : Reply × Service)
    → (not (authorize r (scope_of e) s).0 ≡ false → IsGuarded e t r s granted)
    → IsGuarded e t r s (
        if not (str_eq r.method "GET")
        then (write_method_not_allowed r.method, s)
        else if not (authorize r (scope_of e) s).0
        then deny t r action (scope_of e) error_code (authorize r (scope_of e) s).1
        else granted)
read-IsGuarded e t r s action error_code granted g =
    if_intro (IsGuarded e t r s) (not (str_eq r.method "GET")) _ _
      (λ h. inl (λ h. omega (arith, h)))
      (λ h.
        if_intro (IsGuarded e t r s) (not (authorize r (scope_of e) s).0) _ _
          (λ d. deny-IsGuarded e t r s _ action (scope_of e) error_code) g)

catalog_locked-audit : (now : ℕ) (s : Service) → (catalog_locked now s).audit ≡ s.audit
unfolding catalog_locked refresh
catalog_locked-audit now s = refl

handle_catalog-IsGuarded :
    (t : Times) (r : Request) (s : Service) → IsGuarded catalog_path t r s (handle_catalog t r s)
unfolding handle_catalog
handle_catalog-IsGuarded t r s =
    let a = authorize r auth_scope_catalog_read s in
    read-IsGuarded catalog_path t r s _ _ _ (λ g. inr (
      record_audit-IsGuarded catalog_path t r s (catalog_locked t.now a.1)
        (plain_record "catalog_read" auth_scope_catalog_read "ok" "" (audit_actor r no_context)) g
        refl (catalog_locked-audit t.now a.1 ∙ authorize-audit r auth_scope_catalog_read s)))

handle_metrics-IsGuarded :
    (t : Times) (r : Request) (s : Service) → IsGuarded metrics_path t r s (handle_metrics t r s)
unfolding handle_metrics
handle_metrics-IsGuarded t r s = read-IsGuarded metrics_path t r s _ _ _ (λ g. inr (
    record_audit-IsGuarded metrics_path t r s (authorize r auth_scope_admin_mutation s).1
      (plain_record "metrics_read" auth_scope_admin_mutation "ok" "" (audit_actor r no_context)) g
      refl (authorize-audit r auth_scope_admin_mutation s)))

handle_audit-IsGuarded :
    (t : Times) (r : Request) (s : Service) → IsGuarded audit_path t r s (handle_audit t r s)
unfolding handle_audit
handle_audit-IsGuarded t r s = read-IsGuarded audit_path t r s _ _ _ (λ g. inr (
    record_audit-IsGuarded audit_path t r s (authorize r auth_scope_admin_mutation s).1
      (plain_record "audit_read" auth_scope_admin_mutation "ok" "" (audit_actor r no_context)) g
      refl (authorize-audit r auth_scope_admin_mutation s)))

handle_admin-IsGuarded :
    (t : Times) (r : Request) (s : Service) → IsGuarded admin_path t r s (handle_admin t r s)
unfolding handle_admin
handle_admin-IsGuarded t r s =
    if_intro (IsGuarded admin_path t r s) (not (authorize r auth_scope_admin_mutation s).0) _ _
      (λ d.
        deny-IsGuarded admin_path t r s (authorize r auth_scope_admin_mutation s).1 "admin_mutation"
          auth_scope_admin_mutation "admin_forbidden")
      (λ d. inl (λ h. omega (arith, h)))

settle-audit : (id : String) (o : Outcome) (s : Service) → (settle id o s).audit ≡ s.audit
unfolding settle
settle-audit id (replayed r) s = refl
settle-audit id not_found s = refl
settle-audit id (not_ready a b r) s = refl
settle-audit id (issued a b r) s = refl

settled-audit :
    (o : Option ArtifactIssueResponse) (id : String) (fresh : Outcome) (s t : Service)
    → t.audit ≡ s.audit
    → (settled o id fresh s t).1.audit ≡ s.audit
settled-audit none id fresh s t h = settle-audit id fresh t ∙ h
settled-audit (some r) id fresh s t h = settle-audit id (replayed r) s

outcome_record-scope :
    (r : Request) (q : ArtifactIssueRequest) (o : Outcome)
    → (outcome_record r q o).scope ≡ auth_scope_artifact_issue
unfolding outcome_record
outcome_record-scope r q (replayed x) = refl
outcome_record-scope r q not_found = refl
outcome_record-scope r q (not_ready a b x) = refl
outcome_record-scope r q (issued a b x) = refl

module _ (lib : Library) where
  issue_locked-audit :
      (clock now : ℕ) (q : ArtifactIssueRequest) (s : Service)
      → (issue_locked lib clock now q s).1.audit ≡ s.audit
  unfolding issue_locked refresh
  issue_locked-audit clock now q s =
      settled-audit (lookup q.operation_id s.issues) q.operation_id _ s (refresh now s) refl

  issue_request-IsGuarded :
      (t : Times) (r : Request) (q : ArtifactIssueRequest) (s : Service)
      → IsGuarded artifact_issue_path t r s (handle_issue_request lib t r q s)
  unfolding handle_issue_request
  issue_request-IsGuarded t r q s =
      let a = authorize r auth_scope_artifact_issue s in
      let b = issue_locked lib t.clock t.now q a.1 in
      let P = IsGuarded artifact_issue_path t r s in
      if_intro P (is_empty q.operation_id) _ _ (λ h. inl (λ h. omega (arith, h)))
        (λ h.
          if_intro P (not a.0) _ _ (λ d. inl (λ h. omega (arith, h)))
            (λ g. inr (
              record_audit-IsGuarded artifact_issue_path t r s b.1 (outcome_record r q b.0) g
                (outcome_record-scope r q b.0)
                (issue_locked-audit t.clock t.now q a.1
                  ∙ authorize-audit r auth_scope_artifact_issue s))))

  decoded-IsGuarded :
      (t : Times) (r : Request) (body : Result String ArtifactIssueRequest) (s : Service)
      → IsGuarded artifact_issue_path t r s (handle_decoded lib t r body s)
  decoded-IsGuarded t r (ok q) s = issue_request-IsGuarded t r (trim_request q) s
  decoded-IsGuarded t r (err e) s = inl (λ h. omega (arith, h))

  serve-IsGuarded :
      (e : Endpoint) (t : Times) (r : Request) (s : Service) → IsGuarded e t r s (serve lib e t r s)
  unfolding serve handle_artifact_issue
  serve-IsGuarded catalog_path t r s = handle_catalog-IsGuarded t r s
  serve-IsGuarded artifact_issue_path t r s =
      if_intro (IsGuarded artifact_issue_path t r s) (not (str_eq r.method "POST")) _ _
        (λ h. inl (λ h. omega (arith, h))) (λ h. decoded-IsGuarded t r r.body s)
  serve-IsGuarded metrics_path t r s = handle_metrics-IsGuarded t r s
  serve-IsGuarded audit_path t r s = handle_audit-IsGuarded t r s
  serve-IsGuarded admin_path t r s = handle_admin-IsGuarded t r s

  -- Whatever a handler answers with the status 200, the request carries a bearer token to which the
  -- authorizer gives the handler's own scope, and the handler has logged one record more, of this
  -- scope.
  pub serve-IsGranted :
      (e : Endpoint) (t : Times) (r : Request) (s : Service)
      → (serve lib e t r s).0.status ≡ 200
      → IsGranted (scope_of e) s.authorizer r × IsLogged (scope_of e) t s (serve lib e t r s).1
  serve-IsGranted e t r s h = elim (serve-IsGuarded e t r s) [ inl n ↦ absurd (n h) | inr g ↦ g ]
