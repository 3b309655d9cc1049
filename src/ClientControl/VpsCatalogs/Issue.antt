-- ===== src/ClientControl/VpsCatalogs/Issue.antt =====
-- pkg/clientcontrol/vps_provider_catalog.go: when an artifact of a catalog is issued, and the
-- resolution that it becomes. The request to the endpoint is left out: its response is given.
use Prim.Native.String.{String}
use text.Mathlib.Text.{◌==◌ as str_eq}
use vk_turn_proxy_go.Base.{ℕ, not, ◌&&◌, List, [], ◌∷◌, Option, none, some, if◌then◌else◌, ltb}
use vk_turn_proxy_go.Base.Text.{is_empty, trim_space}
use vk_turn_proxy_go.Base.TextDict.{lookup}
use vk_turn_proxy_go.Base.Result.{Result, ok, err, ◌>>=◌, ◌>>◌, guard}
use vk_turn_proxy_go.Catalog.Types.{ProviderSource, ArtifactOffer, valid, status_text}
use vk_turn_proxy_go.Catalog.Messages.{ArtifactIssueResponse, ArtifactExport}
use vk_turn_proxy_go.Catalog.Library.{Library}
use vk_turn_proxy_go.Catalog.Validation.{ValidationResult, valid_result, validate_offer_readiness}
use vk_turn_proxy_go.Catalog.Validation.Snapshot.{validate_snapshot}
use vk_turn_proxy_go.ClientControl.VpsCatalogs.{
  CatalogStatus, CachedCatalog, Catalogs, status_from_snapshot, options_for, highest_of,
}

pub record IssueRequest : Type 0 where
  pub endpoint_id : String
  pub source_id : String
  pub offer_id : String
  pub operation_id : String

pub data IssueRefusal : Type 0 where
  operation_required catalog_unavailable offer_not_found : IssueRefusal
  response_mismatch response_rollback : IssueRefusal
  catalog_invalid artifact_not_ready : (message : String) → IssueRefusal

abbrev pub find_in_offers : String → List ArtifactOffer → Option ArtifactOffer
find_in_offers id [] = none
find_in_offers id (o ∷ os) =
    let rest = find_in_offers id os in if str_eq o.id id then some o else rest

abbrev pub or_later :
    ProviderSource
    → Option ArtifactOffer
    → Option (ProviderSource × ArtifactOffer)
    → Option (ProviderSource × ArtifactOffer)
or_later s none rest = rest
or_later s (some o) rest = some (s, o)

unfoldable pub find_offer :
    (source_id offer_id : String) → List ProviderSource → Option (ProviderSource × ArtifactOffer)
find_offer source_id offer_id [] = none
find_offer source_id offer_id (s ∷ ss) =
    let rest = find_offer source_id offer_id ss in
    if str_eq s.id source_id
    then or_later s (find_in_offers offer_id s.artifact_offers) rest
    else rest

abbrev pub result_or_valid : Result ValidationResult (Unit {0}) → ValidationResult
result_or_valid (ok u) = valid_result
result_or_valid (err r) = r

abbrev time_or : Option ℕ → ℕ → ℕ
time_or none now = now
time_or (some t) now = t

abbrev pub found_offer :
    Option (ProviderSource × ArtifactOffer) → Result IssueRefusal (ProviderSource × ArtifactOffer)
found_offer none = err offer_not_found
found_offer (some p) = ok p

-- What is checked of the response, for the catalog that was kept.
unfoldable pub accept_response :
    IssueRequest → CachedCatalog → ArtifactIssueResponse → Result IssueRefusal (Unit {0})
accept_response req m response =
    guard
      (str_eq response.source.source_id req.source_id
        && str_eq response.artifact.offer_id req.offer_id
        && str_eq response.source.endpoint_id m.snapshot.endpoint_id)
      response_mismatch
    >> guard (not (ltb response.source.generation m.snapshot.generation)) response_rollback

abbrev pub payload_of : Option ArtifactExport → String
payload_of none = ""
payload_of (some e) = if e.payload_redacted then "" else trim_space e.payload

-- `remoteVPSExportPayload`.
unfoldable pub export_payload : ArtifactIssueResponse → String
unfolding trim_space
export_payload r = payload_of r.export

module _ (lib : Library) where
  -- `currentVPSCatalogStatusLocked`.
  unfoldable pub current_status : CachedCatalog → (clock now : ℕ) → Catalogs → CatalogStatus
  unfolding validate_snapshot highest_of
  current_status m clock now c =
      let r = validate_snapshot lib clock m.snapshot (options_for m.endpoint now c) in
      if is_empty m.snapshot.version
      then m.status
      else status_from_snapshot m.endpoint m.snapshot (time_or m.status.last_sync_at now)
          (result_or_valid r)

  -- An offer that is ready.
  abbrev pub if_ready :
      (clock now : ℕ)
      → ProviderSource × ArtifactOffer
      → Result IssueRefusal (ProviderSource × ArtifactOffer)
  if_ready clock now p =
      let readiness = validate_offer_readiness lib clock p.0 p.1 now in
      guard (str_eq (status_text readiness.status) (status_text valid))
        (artifact_not_ready readiness.message)
      >> ok p

  -- A source and an offer of a kept catalog that is valid, and ready.
  unfoldable pub choose_offer :
      IssueRequest
      → CachedCatalog
      → (clock now : ℕ) → Catalogs
      → Result IssueRefusal (ProviderSource × ArtifactOffer)
  unfolding current_status find_offer validate_offer_readiness
  choose_offer req m clock now c =
      let status = current_status m clock now c in
      guard (str_eq status.validation_status (status_text valid)) (catalog_invalid status.message)
      >> (found_offer (find_offer req.source_id req.offer_id m.snapshot.sources)
          >>= if_ready clock now)

  abbrev pub issue_from :
      Option CachedCatalog
      → IssueRequest
      → (clock now : ℕ) → Catalogs
      → ArtifactIssueResponse
      → Result IssueRefusal (ProviderSource × ArtifactOffer)
  issue_from none req clock now c response = err catalog_unavailable
  issue_from (some m) req clock now c response =
      choose_offer req m clock now c >>= λ p. accept_response req m response >> ok p

  -- `IssueVPSProviderArtifact`, up to the record of the resolution, of a request that is trimmed.
  unfoldable pub issue_artifact :
      IssueRequest
      → (clock now : ℕ) → Catalogs
      → ArtifactIssueResponse
      → Result IssueRefusal (ProviderSource × ArtifactOffer)
  unfolding lookup choose_offer accept_response
  issue_artifact req clock now c response =
      guard (not (is_empty req.operation_id)) operation_required
      >> issue_from (lookup req.endpoint_id c.cache) req clock now c response
