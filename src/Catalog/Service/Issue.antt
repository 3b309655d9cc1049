-- ===== src/Catalog/Service/Issue.antt =====
-- internal/vpscatalog/service.go: the locked part of handleArtifactIssue. `clock` is what `time.Now`
-- answers, and `now` what `Service.now` does.
use Prim.Native.String.{String, ◌++◌}
use text.Mathlib.Text.{◌==◌ as str_eq}
use vk_turn_proxy_go.Base.{
  ℕ, ◌+◌, Bool, false, not, ◌&&◌, ◌||◌, List, [], ◌∷◌, Option, none, some, if◌then◌else◌, ◌==◌, ltb,
}
use vk_turn_proxy_go.Base.Int.{ℤ, pos, negsuc, is_pos, int_ltb, seconds}
use vk_turn_proxy_go.Base.Text.{is_empty, is_blank, trim_space}
use vk_turn_proxy_go.Base.TextDict.{lookup, insert}
use vk_turn_proxy_go.Catalog.Types.{
  RedactionPolicy, default_redaction_policy, ArtifactProvenance, ArtifactOffer, ProviderSource,
  CatalogSnapshot, ValidationStatus, status_text, valid,
}
use vk_turn_proxy_go.Catalog.Messages.{ArtifactIssueRequest, ArtifactIssueResponse}
use vk_turn_proxy_go.Catalog.Clone.{clone_snapshot, clone_source, clone_offer}
use vk_turn_proxy_go.Catalog.Library.{Library}
use vk_turn_proxy_go.Catalog.Validation.{ValidationResult, validate_offer_readiness}
use vk_turn_proxy_go.Catalog.Service.{Service, refresh, increment}

-- The loop over the offers of a source.
abbrev pub offer_in : String → List ArtifactOffer → Option ArtifactOffer
offer_in id [] = none
offer_in id (o ∷ os) = let rest = offer_in id os in if str_eq o.id id then some o else rest

-- What is found in a source, or else what the loop goes on to find.
abbrev pub found_in :
    ProviderSource
    → Option ArtifactOffer
    → Option (ProviderSource × ArtifactOffer)
    → Option (ProviderSource × ArtifactOffer)
found_in s none rest = rest
found_in s (some o) rest = some (clone_source s, clone_offer o)

abbrev pub offer_among :
    (source_id offer_id : String) → List ProviderSource → Option (ProviderSource × ArtifactOffer)
offer_among source_id offer_id [] = none
offer_among source_id offer_id (s ∷ ss) =
    let rest = offer_among source_id offer_id ss in
    if str_eq s.id source_id then found_in s (offer_in offer_id s.artifact_offers) rest else rest

unfoldable pub find_offer :
    CatalogSnapshot → (source_id offer_id : String) → Option (ProviderSource × ArtifactOffer)
find_offer s source_id offer_id = offer_among source_id offer_id s.sources

abbrev pub first_non_empty : String → String → String
first_non_empty a b =
    if not (is_blank a) then trim_space a else if not (is_blank b) then trim_space b else ""

abbrev pub minute : ℕ
minute = 60000000000

-- `if ttl <= 0 { ttl = time.Minute }`.
abbrev pub or_minute : ℤ → ℕ
or_minute (pos n) = if ltb 0 n then n else minute
or_minute (negsuc n) = minute

-- The time to live, in nanoseconds, of what is requested and what the offer allows.
unfoldable pub effective_ttl : (requested max : ℤ) → ℕ
unfolding seconds
effective_ttl requested max =
    let ttl = seconds requested in
    let limit = seconds max in
    or_minute (if not (is_pos ttl) || (is_pos max && int_ltb limit ttl) then limit else ttl)

abbrev pub is_no_policy : RedactionPolicy → Bool
is_no_policy p =
    is_empty p.ordinary_reads
    && is_empty p.events
    && is_empty p.diagnostics
    && is_empty p.persisted_state
    && is_empty p.export

abbrev pub fill_provenance :
    CatalogSnapshot → ProviderSource → ArtifactOffer → ArtifactProvenance → ArtifactProvenance
fill_provenance s source offer p = record {
  endpoint_id = first_non_empty p.endpoint_id s.endpoint_id;
  issuer = first_non_empty p.issuer s.issuer;
  audience = first_non_empty p.audience s.audience;
  generation = if p.generation == 0 then s.generation else p.generation;
  source_id = first_non_empty p.source_id source.id;
  offer_id = first_non_empty p.offer_id offer.id;
}

-- What the locked part decides.
pub data Outcome : Type 0 where
  replayed : ArtifactIssueResponse → Outcome
  not_found : Outcome
  not_ready : ProviderSource → ArtifactOffer → ValidationResult → Outcome
  issued : ProviderSource → ArtifactOffer → ArtifactIssueResponse → Outcome

-- `s.metrics.ArtifactIssues["status="+status]++`.
unfoldable pub count_issue : String → Service → Service
unfolding increment
count_issue status s = record s {
  metrics = record s.metrics {
    artifact_issues = increment ("status=" ++ status) s.metrics.artifact_issues;
  };
}

-- `s.metrics.EvidenceOutcomes["status="+status]++`.
unfoldable pub count_outcome : String → Service → Service
unfolding increment
count_outcome status s = record s {
  metrics = record s.metrics {
    evidence_outcomes = increment ("status=" ++ status) s.metrics.evidence_outcomes;
  };
}

-- What the outcome leaves in the maps.
unfoldable pub settle : String → Outcome → Service → Service
unfolding count_issue count_outcome insert
settle id (replayed response) s = count_issue "idempotent_retry" s
settle id not_found s = count_issue "not_found" s
settle id (not_ready source offer r) s =
    count_outcome (status_text r.status) (count_issue (status_text r.status) s)
settle id (issued source offer response) s =
    count_outcome "valid" (count_issue "ok" (record s { issues = insert id response s.issues }))

-- A first answer is given again; otherwise the state that was refreshed takes the fresh outcome.
abbrev pub settled :
    Option ArtifactIssueResponse → String → Outcome → (kept refreshed : Service) → Outcome × Service
settled (some existing) id fresh kept refreshed =
    (replayed existing, settle id (replayed existing) kept)
settled none id fresh kept refreshed = (fresh, settle id fresh refreshed)

module _ (lib : Library) where
  unfoldable pub artifact_issue_id : CatalogSnapshot → ArtifactIssueRequest → String
  artifact_issue_id s req =
      "vps-artifact-"
      ++ lib.sha256_hex 8 (
          s.endpoint_id
          ++ "|"
          ++ s.issuer
          ++ "|"
          ++ lib.sprint s.generation
          ++ "|"
          ++ req.source_id
          ++ "|"
          ++ req.offer_id
          ++ "|"
          ++ req.operation_id)

  unfoldable pub secret_export_payload :
      (artifact_id operation_id : String) (expires_at : ℕ) → String
  secret_export_payload artifact_id operation_id expires_at =
      "vps-secret-"
      ++ lib.sha256_hex 16
          (artifact_id ++ "|" ++ operation_id ++ "|" ++ lib.rfc3339_nano expires_at)

  unfoldable pub issue_response :
      CatalogSnapshot
      → ArtifactIssueRequest
      → ProviderSource
      → ArtifactOffer
      → ℕ
      → ArtifactIssueResponse
  unfolding effective_ttl artifact_issue_id secret_export_payload
  issue_response s req source offer now =
      let expires = now + effective_ttl req.ttl_seconds offer.max_ttl_seconds in
      let artifact_id = artifact_issue_id s req in
      record {
        operation_id = req.operation_id;
        issued_at = now;
        expires_at = expires;
        source = record {
          endpoint_id = s.endpoint_id;
          issuer = s.issuer;
          audience = s.audience;
          generation = s.generation;
          provider_id = source.provider_id;
          source_id = source.id;
        };
        artifact = record {
          id = artifact_id;
          source_id = source.id;
          offer_id = offer.id;
          family = offer.family;
          access_methods = offer.access_methods;
          actions = offer.actions;
          remote_endpoint_family = offer.remote_endpoint_family;
          remote_endpoint_role = offer.remote_endpoint_role;
          compatible_profile_kinds = offer.compatible_profile_kinds;
          health = offer.health;
          evidence = offer.evidence;
          expires_at = expires;
        };
        export =
            if req.export_secret
            then some (record {
              kind = "vps_secret_handoff";
              payload = secret_export_payload artifact_id req.operation_id expires;
              payload_redacted = false;
            })
            else none;
        redaction =
            if is_no_policy offer.redaction then default_redaction_policy else offer.redaction;
        provenance = fill_provenance s source offer offer.provenance;
      }

  -- `if readiness.Status != ValidationStatusValid`.
  abbrev pub if_ready :
      CatalogSnapshot
      → ArtifactIssueRequest
      → ProviderSource
      → ArtifactOffer
      → ℕ
      → ValidationStatus
      → ValidationResult
      → Outcome
  if_ready s req source offer now valid r =
      issued source offer (issue_response s req source offer now)
  if_ready s req source offer now status r = not_ready source offer r

  -- What comes of an offer that was found, or not.
  abbrev pub offer_outcome :
      ℕ
      → ℕ
      → CatalogSnapshot
      → ArtifactIssueRequest
      → Option (ProviderSource × ArtifactOffer)
      → Outcome
  offer_outcome clock now s req none = not_found
  offer_outcome clock now s req (some (source, offer)) =
      let r = validate_offer_readiness lib clock source offer now in
      if_ready s req source offer now r.status r

  -- What a request without an earlier answer comes to, on a snapshot.
  unfoldable pub decide : ℕ → ℕ → CatalogSnapshot → ArtifactIssueRequest → Outcome
  unfolding clone_snapshot find_offer issue_response validate_offer_readiness
  decide clock now s req =
      offer_outcome clock now s req (find_offer (clone_snapshot s) req.source_id req.offer_id)

  unfoldable pub issue_locked : ℕ → ℕ → ArtifactIssueRequest → Service → Outcome × Service
  unfolding decide settle refresh lookup
  issue_locked clock now req s =
      let t = refresh now s in
      settled (lookup req.operation_id s.issues) req.operation_id (decide clock now t.snapshot req)
        s t
