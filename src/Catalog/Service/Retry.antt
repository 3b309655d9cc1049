-- ===== src/Catalog/Service/Retry.antt =====
-- A client that repeats a request gets the answer that it was given.
use Prim.Native.String.{String}
use text.Mathlib.TextEquality.{eq_iff}
use vk_turn_proxy_go.Base.{
  ℕ, ◌≡◌, refl, ap, ◌∙◌, true, false, not, List, Option, none, some, arith, if_intro,
}
use vk_turn_proxy_go.Base.TextDict.{lookup, lookup-insert}
use vk_turn_proxy_go.Base.Text.{is_empty}
use vk_turn_proxy_go.Catalog.Types.{
  ArtifactOffer, ProviderSource, CatalogSnapshot, ValidationStatus, valid,
  auth_scope_artifact_issue,
}
use vk_turn_proxy_go.Catalog.Messages.{ArtifactIssueRequest, ArtifactIssueResponse}
use vk_turn_proxy_go.Catalog.Clone.{clone_snapshot}
use vk_turn_proxy_go.Catalog.Library.{Library}
use vk_turn_proxy_go.Catalog.Validation.{ValidationResult, validate_offer_readiness}
use vk_turn_proxy_go.Catalog.Service.{
  Service, Request, authorize, record_audit, refresh, count_authorization, authorize_counts,
}
use vk_turn_proxy_go.Catalog.Service.Issue.{
  Outcome, replayed, not_found, not_ready, issued, decide, offer_outcome, if_ready, settle, settled,
  issue_locked, find_offer,
}
use vk_turn_proxy_go.Catalog.Service.Sections.{Section, run_sections, first_answer, or_first}
use vk_turn_proxy_go.Catalog.Service.Once.{run_sections-issues, catalog_of}
use vk_turn_proxy_go.Catalog.Service.Handlers.{
  Reply, Times, issue_payload, handle_issue_request, outcome_reply,
}

-- An answer with the status 200.
abbrev pub answered : ArtifactIssueResponse → Reply
answered p = record { status = 200; payload = issue_payload p }

outcome_reply-injective :
    (a b : ArtifactIssueResponse) → ◌≡◌ {A = Reply} (answered a) (answered b) → a ≡ b
outcome_reply-injective a b h = cc

settle-answered :
    (id : String) (o : Outcome) (s : Service) (p : ArtifactIssueResponse)
    → ((x : ArtifactIssueResponse) → o ≡ replayed x → ⊥)
    → outcome_reply o ≡ answered p
    → lookup id (settle id o s).issues ≡ some p
unfolding settle outcome_reply
settle-answered id (replayed x) s p n h = absurd (n x refl)
settle-answered id not_found s p n h = absurd (omega (arith, ap (λ (r : Reply). r.status) h))
settle-answered id (not_ready a b r) s p n h =
    absurd (omega (arith, ap (λ (r : Reply). r.status) h))
settle-answered id (issued a b r) s p n h =
    lookup-insert id id r s.issues
    ∙ rw ((eq_iff id id).1 refl) (ap some (outcome_reply-injective r p h))

settled-answered :
    (o : Option ArtifactIssueResponse) (id : String) (fresh : Outcome) (s t : Service)
    (p : ArtifactIssueResponse)
    → ((x : ArtifactIssueResponse) → fresh ≡ replayed x → ⊥)
    → lookup id s.issues ≡ o
    → outcome_reply (settled o id fresh s t).0 ≡ answered p
    → lookup id (settled o id fresh s t).1.issues ≡ some p
unfolding settle outcome_reply
settled-answered none id fresh s t p n e h = settle-answered id fresh t p n h
settled-answered (some r) id fresh s t p n e h = e ∙ ap some (outcome_reply-injective r p h)

module _ (lib : Library) where
  if_ready-ne-replayed :
      (s : CatalogSnapshot) (req : ArtifactIssueRequest) (a : ProviderSource) (b : ArtifactOffer)
      (now : ℕ) (status : ValidationStatus) (r : ValidationResult) (x : ArtifactIssueResponse)
      → if_ready lib s req a b now status r ≡ replayed x
      → ⊥
  if_ready-ne-replayed s req a b now valid r x h = cc
  if_ready-ne-replayed s req a b now status r x h = cc

  offer_outcome-ne-replayed :
      (clock now : ℕ) (s : CatalogSnapshot) (req : ArtifactIssueRequest)
      (found : Option (ProviderSource × ArtifactOffer)) (x : ArtifactIssueResponse)
      → offer_outcome lib clock now s req found ≡ replayed x
      → ⊥
  offer_outcome-ne-replayed clock now s req none x h = cc
  offer_outcome-ne-replayed clock now s req (some (a, b)) x h =
      let r = validate_offer_readiness lib clock a b now in
      if_ready-ne-replayed s req a b now r.status r x h

  decide-ne-replayed :
      (clock now : ℕ) (s : CatalogSnapshot) (req : ArtifactIssueRequest) (x : ArtifactIssueResponse)
      → decide lib clock now s req ≡ replayed x
      → ⊥
  unfolding decide
  decide-ne-replayed clock now s req x h =
      offer_outcome-ne-replayed clock now s req
        (find_offer (clone_snapshot s) req.source_id req.offer_id) x h

  issue_locked-answered :
      (clock now : ℕ) (q : ArtifactIssueRequest) (s : Service) (p : ArtifactIssueResponse)
      → outcome_reply (issue_locked lib clock now q s).0 ≡ answered p
      → lookup q.operation_id (issue_locked lib clock now q s).1.issues ≡ some p
  unfolding issue_locked
  issue_locked-answered clock now q s p h =
      settled-answered (lookup q.operation_id s.issues) q.operation_id _ s (refresh now s) p
        (decide-ne-replayed clock now (refresh now s).snapshot q) refl h

  issue_locked-known :
      (clock now : ℕ) (q : ArtifactIssueRequest) (s : Service) (p : ArtifactIssueResponse)
      → lookup q.operation_id s.issues ≡ some p
      → outcome_reply (issue_locked lib clock now q s).0 ≡ answered p
  unfolding issue_locked outcome_reply
  issue_locked-known clock now q s p h = rw h refl

  handle_issue_request-kept :
      (t : Times) (r : Request) (q : ArtifactIssueRequest) (s : Service) (p : ArtifactIssueResponse)
      → (handle_issue_request lib t r q s).0 ≡ answered p
      → lookup q.operation_id (handle_issue_request lib t r q s).1.issues ≡ some p
  unfolding handle_issue_request record_audit
  handle_issue_request-kept t r q s p =
      let a = authorize r auth_scope_artifact_issue s in
      let Kept : Reply × Service → Type 0 =
        λ x. x.0 ≡ answered p → lookup q.operation_id x.1.issues ≡ some p in
      if_intro Kept (is_empty q.operation_id) _ _
        (λ e h. absurd (omega (arith, ap (λ (x : Reply). x.status) h)))
        (λ e.
          if_intro Kept (not a.0) _ _
            (λ d h. absurd (omega (arith, ap (λ (x : Reply). x.status) h)))
            (λ g h. issue_locked-answered t.clock t.now q a.1 p h))

  authorize-issues :
      (r : Request) (scope : String) (s : Service) → (authorize r scope s).1.issues ≡ s.issues
  unfolding count_authorization
  authorize-issues r scope s =
      let (status, e) = authorize_counts r scope s in ap (λ (x : Service). x.issues) e

  -- Once a request to issue was answered by a response with the status 200, then after any steps of
  -- other requests each authorized request under the same operation, which is not empty, is answered
  -- by that response, whatever else it asks for.
  pub handle_issue_request-retry :
      (t1 t2 : Times) (r1 r2 : Request) (q1 q2 : ArtifactIssueRequest) (s : Service)
      (p : ArtifactIssueResponse) (xs : List Section)
      → (handle_issue_request lib t1 r1 q1 s).0 ≡ answered p
      → q2.operation_id ≡ q1.operation_id
      → is_empty q2.operation_id ≡ false
      → (authorize r2 auth_scope_artifact_issue
          (run_sections lib xs (handle_issue_request lib t1 r1 q1 s).1)).0
        ≡ true
      → (handle_issue_request lib t2 r2 q2
          (run_sections lib xs (handle_issue_request lib t1 r1 q1 s).1)).0
        ≡ answered p
  unfolding handle_issue_request
  handle_issue_request-retry t1 t2 r1 r2 q1 q2 s p xs h same filled granted =
      let s1 = (handle_issue_request lib t1 r1 q1 s).1 in
      let s2 = run_sections lib xs s1 in
      let s3 = (authorize r2 auth_scope_artifact_issue s2).1 in
      let k1 : lookup q2.operation_id s1.issues ≡ some p =
        ap (λ i. lookup i s1.issues) same ∙ handle_issue_request-kept t1 r1 q1 s p h in
      let k2 : lookup q2.operation_id s2.issues ≡ some p =
        run_sections-issues lib q2.operation_id xs s1
        ∙ ap (λ o. or_first o (first_answer lib (catalog_of lib s1) q2.operation_id xs)) k1 in
      let k3 = ap (lookup q2.operation_id) (authorize-issues r2 _ s2) ∙ k2 in
      rw (filled, granted) (issue_locked-known t2.clock t2.now q2 s3 p k3)
