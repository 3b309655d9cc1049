-- ===== src/ClientControl/VpsCatalogs.antt =====
-- pkg/clientcontrol/vps_provider_catalog.go: the catalogs that the host fetches and keeps, against the
-- validation of internal/vpscatalog. The requests, their tokens and the file of the cache are left
-- out: a fetch comes to one of the answers here. `clock` is what `time.Now` answers.
pub mod Issue
pub mod Issued
pub mod Rollback
mod Examples
use Prim.Native.String.{String, ◌++◌}
use text.Mathlib.Text.{◌==◌ as str_eq}
use vk_turn_proxy_go.Base.{
  ℕ, Bool, not, List, [], ◌∷◌, Option, none, some, if◌then◌else◌, length, ltb,
}
use vk_turn_proxy_go.Base.Text.{is_blank, trim_space}
use vk_turn_proxy_go.Base.TextDict.{lookup, insert}
use vk_turn_proxy_go.Base.Result.{Result, ok, err, ◌>>◌, guard}
use vk_turn_proxy_go.Catalog.Types.{CatalogSnapshot, status_text, unavailable, invalid}
use vk_turn_proxy_go.Catalog.Clone.{clone_snapshot}
use vk_turn_proxy_go.Catalog.Library.{Library}
use vk_turn_proxy_go.Catalog.Validation.{
  ValidationOptions, ValidationResult, valid_result, error_text,
}
use vk_turn_proxy_go.Catalog.Validation.Snapshot.{validate_snapshot}

pub record EndpointConfig : Type 0 where
  pub id : String
  pub url : String
  pub issuer : String
  pub audience : String
  pub allow_unsigned : Bool

pub record CatalogStatus : Type 0 where
  pub endpoint_id : String
  pub endpoint_url : String
  pub issuer : String
  pub audience : String
  pub generation : ℕ
  pub generated_at : Option ℕ
  pub expires_at : Option ℕ
  pub last_sync_at : Option ℕ
  pub validation_status : String
  pub validation_reason : String
  pub message : String
  pub source_count : ℕ

pub record CachedCatalog : Type 0 where
  pub endpoint : EndpointConfig
  pub snapshot : CatalogSnapshot
  pub status : CatalogStatus

pub record Catalogs : Type 0 where
  pub cache : List (String × CachedCatalog)
  pub highest : List (String × ℕ)

abbrev pub no_catalogs : Catalogs
no_catalogs = record { cache = []; highest = [] }

-- `vpscatalog.CatalogSnapshot{}`.
abbrev pub no_snapshot : CatalogSnapshot
no_snapshot = record {
  version = "";
  generated_at = 0;
  expires_at = 0;
  issuer = "";
  audience = "";
  endpoint_id = "";
  generation = 0;
  integrity = record { mode = ""; digest = ""; signature = "" };
  sources = [];
}

abbrev pub generation_key : EndpointConfig → String
generation_key e = e.id ++ "|" ++ e.issuer ++ "|" ++ e.audience

abbrev pub generation_or_zero : Option ℕ → ℕ
generation_or_zero none = 0
generation_or_zero (some n) = n

unfoldable pub highest_of : String → Catalogs → ℕ
unfolding lookup
highest_of key c = generation_or_zero (lookup key c.highest)

abbrev pub kept_snapshot : Option CachedCatalog → CatalogSnapshot
kept_snapshot none = no_snapshot
kept_snapshot (some c) = c.snapshot

abbrev pub next_snapshot :
    CatalogStatus → Option CatalogSnapshot → CatalogSnapshot → CatalogSnapshot
next_snapshot status (some s) old = clone_snapshot s
next_snapshot status none old =
    if str_eq status.validation_status (status_text unavailable) then old else no_snapshot

abbrev pub raise : String → Option CatalogSnapshot → Catalogs → List (String × ℕ)
raise key none c = c.highest
raise key (some s) c =
    if ltb (highest_of key c) s.generation then insert key s.generation c.highest else c.highest

-- `storeVPSCatalogStatus`.
unfoldable pub store_status :
    EndpointConfig → CatalogStatus → Option CatalogSnapshot → Catalogs → Catalogs
unfolding lookup insert clone_snapshot highest_of
store_status e status snapshot c = record {
  cache =
      insert e.id
        (record {
          endpoint = e;
          snapshot = next_snapshot status snapshot (kept_snapshot (lookup e.id c.cache));
          status = status;
        })
        c.cache;
  highest = raise (generation_key e) snapshot c;
}

-- What a request for a catalog comes to.
pub data Fetched : Type 0 where
  request_error transport_error undecodable : (message : String) → Fetched
  bad_status : ℕ → Fetched
  fetched : CatalogSnapshot → Fetched

abbrev pub failed_status : EndpointConfig → ℕ → String → String → CatalogStatus
failed_status e now status message = record {
  endpoint_id = e.id;
  endpoint_url = e.url;
  issuer = e.issuer;
  audience = e.audience;
  generation = 0;
  generated_at = none;
  expires_at = none;
  last_sync_at = some now;
  validation_status = status;
  validation_reason = "";
  message = message;
  source_count = 0;
}

abbrev pub status_from_snapshot :
    EndpointConfig → CatalogSnapshot → ℕ → ValidationResult → CatalogStatus
status_from_snapshot e s last_sync_at r = record {
  endpoint_id = e.id;
  endpoint_url = e.url;
  issuer = s.issuer;
  audience = s.audience;
  generation = s.generation;
  generated_at = some s.generated_at;
  expires_at = some s.expires_at;
  last_sync_at = some last_sync_at;
  validation_status = status_text r.status;
  validation_reason = r.reason;
  message = r.message;
  source_count = length s.sources;
}

abbrev pub options_for : EndpointConfig → ℕ → Catalogs → ValidationOptions
options_for e now c = record {
  now = now;
  expected_issuer = e.issuer;
  expected_audience = e.audience;
  expected_endpoint_id = e.id;
  highest_accepted_generation = highest_of (generation_key e) c;
  require_signed = not e.allow_unsigned;
}

-- The status of a sync, its error, and what is kept then.
pub record Synced : Type 0 where
  pub status : CatalogStatus
  pub error : Option String
  pub kept : Catalogs

abbrev pub refuse : EndpointConfig → CatalogStatus → String → Catalogs → Synced
refuse e status message c = record {
  status = status;
  error = some message;
  kept = store_status e status none c;
}

abbrev pub conclude :
    Result ValidationResult (Unit {0}) → EndpointConfig → CatalogSnapshot → ℕ → Catalogs → Synced
conclude (err r) e s now c = refuse e (status_from_snapshot e s now r) (error_text r) c
conclude (ok u) e s now c =
    let status = status_from_snapshot e s now valid_result in
    record { status = status; error = none; kept = store_status e status (some s) c }

pub record Sync : Type 0 where
  pub endpoint : EndpointConfig
  pub answer : Fetched
  pub clock : ℕ
  pub now : ℕ

-- `url_is_valid` says that `url.Parse` of a text gives a scheme and a host.
module _ (lib : Library) (url_is_valid : String → Bool) where
  unfoldable pub validate_endpoint : EndpointConfig → Result String (Unit {0})
  unfolding is_blank trim_space
  validate_endpoint e =
      guard (not (is_blank e.id)) "vps catalog endpoint id is required"
      >> (guard (not (is_blank e.url)) "vps catalog endpoint url is required"
          >> (guard (url_is_valid (trim_space e.url))
                ("vps catalog endpoint url " ++ lib.quote e.url ++ " is invalid")
              >> (guard (not (is_blank e.issuer)) "vps catalog endpoint issuer is required"
                  >> guard (not (is_blank e.audience))
                      "vps catalog endpoint audience is required")))

  abbrev pub sync_fetched : Fetched → EndpointConfig → (clock now : ℕ) → Catalogs → Synced
  sync_fetched (request_error m) e clock now c =
      refuse e (failed_status e now (status_text invalid) m) m c
  sync_fetched (transport_error m) e clock now c =
      refuse e (failed_status e now (status_text unavailable) m) m c
  sync_fetched (bad_status n) e clock now c =
      let m = "catalog endpoint returned status " ++ lib.sprint n in
      refuse e (failed_status e now (status_text unavailable) m) m c
  sync_fetched (undecodable m) e clock now c =
      refuse e (failed_status e now (status_text invalid) m) m c
  sync_fetched (fetched s) e clock now c =
      conclude (validate_snapshot lib clock s (options_for e now c)) e s now c

  abbrev pub sync_valid :
      Result String (Unit {0}) → Fetched → EndpointConfig → (clock now : ℕ) → Catalogs → Synced
  sync_valid (err m) f e clock now c = refuse e (failed_status e now (status_text invalid) m) m c
  sync_valid (ok u) f e clock now c = sync_fetched f e clock now c

  -- `syncVPSProviderCatalog`.
  unfoldable pub sync_catalog : EndpointConfig → Fetched → (clock now : ℕ) → Catalogs → Synced
  unfolding validate_endpoint validate_snapshot store_status highest_of
  sync_catalog e f clock now c = sync_valid (validate_endpoint e) f e clock now c

  -- One sync after the other, as `SyncVPSProviderCatalogs` goes through its endpoints.
  unfoldable pub run_syncs : List Sync → Catalogs → Catalogs
  unfolding sync_catalog
  run_syncs [] c = c
  run_syncs (x ∷ xs) c = run_syncs xs (sync_catalog x.endpoint x.answer x.clock x.now c).kept
