-- ===== src/ClientControl/VpsCatalogs/Examples.antt =====
-- An endpoint whose catalogs need no signature, and a sync that fails between two that do not.
use Prim.Native.String.{String}
use vk_turn_proxy_go.Base.{◌≤◌, ◌≡◌, refl, Bool, true, List, [], ◌∷◌, none, some}
use vk_turn_proxy_go.Base.Text.{is_space}
use vk_turn_proxy_go.Catalog.Types.{CatalogSnapshot}
use vk_turn_proxy_go.Catalog.Service.Issue.{issue_response}
use vk_turn_proxy_go.Catalog.Samples.{library, snapshot, source, offer, response}
use vk_turn_proxy_go.ClientControl.VpsCatalogs.{
  EndpointConfig, CachedCatalog, Catalogs, no_catalogs, bad_status, fetched, Sync, sync_catalog,
  run_syncs,
}
use vk_turn_proxy_go.ClientControl.VpsCatalogs.Issue.{IssueRequest, issue_artifact}
use vk_turn_proxy_go.ClientControl.VpsCatalogs.Issued.{IsIssuedFrom, issue_artifact-IsIssuedFrom}
use vk_turn_proxy_go.Base.TextDict.{lookup}
use vk_turn_proxy_go.Base.Result.{ok}
use vk_turn_proxy_go.ClientControl.VpsCatalogs.Rollback.{
  IsAccepted, between, sync_catalog-run_syncs,
}

abbrev endpoint : EndpointConfig
endpoint = record {
  id = "vps-main";
  url = "https://vps";
  issuer = "vk-turn-proxy-go";
  audience = "clientcontrol";
  allow_unsigned = true;
}

abbrev any_url : String → Bool
any_url url = true

abbrev later : CatalogSnapshot
later = record snapshot { generation = 8 }

abbrev failing : Sync
failing = record { endpoint = endpoint; answer = bad_status 503; clock = 5; now = 200000000001 }

abbrev syncs : List Sync
syncs = failing ∷ []

first_accepted :
    (sync_catalog library any_url endpoint (fetched snapshot) 5 200000000000 no_catalogs).error
    ≡ none
unfolding sync_catalog is_space
first_accepted = refl

abbrev kept : Catalogs
kept = between library any_url endpoint snapshot 5 200000000000 syncs no_catalogs

last_accepted :
    (sync_catalog library any_url endpoint (fetched later) 5 200000000002 kept).error ≡ none
unfolding sync_catalog run_syncs is_space
last_accepted = refl

sync_catalog-run_syncs_example :
    (snapshot.generation ≤ later.generation)
    × IsAccepted library any_url endpoint later kept
        (sync_catalog library any_url endpoint (fetched later) 5 200000000002 kept).kept
sync_catalog-run_syncs_example =
    sync_catalog-run_syncs library any_url endpoint snapshot later 5 200000000000 5 200000000002
      syncs no_catalogs first_accepted last_accepted

abbrev request : IssueRequest
request = record {
  endpoint_id = "vps-main";
  source_id = "managed-turn";
  offer_id = "turn-handoff";
  operation_id = "op-1";
}

abbrev fetched_once : Catalogs
fetched_once =
    (sync_catalog library any_url endpoint (fetched snapshot) 5 200000000000 no_catalogs).kept

is_issued : issue_artifact library request 5 200000000000 fetched_once response ≡ ok (source, offer)
unfolding issue_artifact sync_catalog is_space issue_response
is_issued = refl

issue_artifact-IsIssuedFrom_example :
    (m : CachedCatalog) × (lookup "vps-main" fetched_once.cache ≡ some m)
    × IsIssuedFrom library request 5 200000000000 fetched_once response (source, offer) m
issue_artifact-IsIssuedFrom_example =
    issue_artifact-IsIssuedFrom library request 5 200000000000 fetched_once response (source, offer)
      is_issued
