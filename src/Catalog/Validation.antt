-- ===== src/Catalog/Validation.antt =====
-- internal/vpscatalog/validation.go: which snapshots a client accepts, and which offers are ready. The
-- instant `clock` is what `time.Now` answers.
pub mod Snapshot
pub mod Laws
pub mod Readiness
pub mod Integrity
pub mod Refusals
use Prim.Native.String.{String, ◌++◌, slice, len}
use text.Mathlib.Text.{◌==◌ as str_eq}
use vk_turn_proxy_go.Base.{
  ℕ, Bool, true, false, not, ◌&&◌, ◌||◌, List, [], ◌∷◌, Option, none, some, if◌then◌else◌, ◌==◌,
  leb, ltb,
}
use vk_turn_proxy_go.Base.Text.{is_blank, is_empty, trim_space}
use vk_turn_proxy_go.Base.Result.{Result, ok, err, ◌>>=◌, ◌>>◌, guard}
use vk_turn_proxy_go.Catalog.Types
use vk_turn_proxy_go.Catalog.Types.{
  CatalogSnapshot, ProviderSource, ArtifactOffer, Health, Evidence, SnapshotIntegrity,
  ValidationStatus, status_text, valid, invalid, stale, unsigned, wrong_audience, wrong_issuer,
  wrong_endpoint, rollback, unsupported, missing_evidence, degraded, unavailable,
}
use vk_turn_proxy_go.Catalog.Clone.{clone_snapshot}
use vk_turn_proxy_go.Catalog.Library.{Library}

pub record ValidationOptions : Type 0 where
  pub now : ℕ
  pub expected_issuer : String
  pub expected_audience : String
  pub expected_endpoint_id : String
  pub highest_accepted_generation : ℕ
  pub require_signed : Bool

pub record ValidationResult : Type 0 where
  pub status : ValidationStatus
  pub reason : String
  pub message : String

abbrev pub valid_result : ValidationResult
valid_result = record { status = valid; reason = ""; message = "" }

-- `ValidationError.Error`.
abbrev pub error_text : ValidationResult → String
error_text r = if is_empty r.message then status_text r.status else r.message

abbrev pub or_clock : ℕ → ℕ → ℕ
or_clock clock now = if now == 0 then clock else now

-- `expiresAt != nil && !expiresAt.After(now)`.
abbrev pub is_past : Option ℕ → ℕ → Bool
is_past none now = false
is_past (some t) now = leb t now

unfoldable pub health_validation_status : Health → ℕ → ValidationStatus
health_validation_status h now =
    if str_eq h.status "" || str_eq h.status Types.health_status_healthy
    then (if is_past h.expires_at now then stale else valid)
    else if str_eq h.status Types.health_status_degraded
    then degraded
    else if str_eq h.status Types.health_status_missing_evidence
    then missing_evidence
    else if str_eq h.status Types.health_status_unavailable
    then unavailable
    else invalid

-- A round of the loop of evidenceValidationStatus.
unfoldable pub evidence_item_status : Evidence → ℕ → ValidationStatus
evidence_item_status e now =
    if str_eq e.status Types.evidence_status_fresh
    then (if is_past e.expires_at now then stale else valid)
    else if str_eq e.status Types.evidence_status_stale
    then stale
    else if str_eq e.status Types.evidence_status_missing
    then missing_evidence
    else if str_eq e.status Types.evidence_status_degraded
        || str_eq e.status Types.evidence_status_unknown_limit
    then degraded
    else if str_eq e.status Types.evidence_status_unavailable
    then unavailable
    else invalid

-- `s`, unless it is valid.
abbrev pub or_else : ValidationStatus → ValidationStatus → ValidationStatus
or_else valid t = t
or_else s t = s

unfoldable pub evidence_loop : List Evidence → ℕ → ValidationStatus
unfolding evidence_item_status
evidence_loop [] now = valid
evidence_loop (e ∷ es) now = or_else (evidence_item_status e now) (evidence_loop es now)

unfoldable pub evidence_validation_status : List Evidence → ℕ → ValidationStatus
unfolding evidence_loop
evidence_validation_status [] now = missing_evidence
evidence_validation_status (e ∷ es) now = evidence_loop (e ∷ es) now

-- `if status != ValidationStatusValid { return ... }`.
abbrev pub unless_valid :
    ValidationStatus → (reason message : String) → ValidationResult → ValidationResult
unless_valid valid reason message rest = rest
unless_valid s reason message rest = record { status = s; reason = reason; message = message }

module _ (lib : Library) where
  abbrev pub source_message : ProviderSource → String → ValidationStatus → String
  source_message source what status =
      "catalog source " ++ lib.quote source.id ++ " " ++ what ++ " is " ++ status_text status

  abbrev pub artifact_message : ProviderSource → ArtifactOffer → String → ValidationStatus → String
  artifact_message source offer what status =
      "catalog source "
      ++ lib.quote source.id
      ++ " offer "
      ++ lib.quote offer.id
      ++ " "
      ++ what
      ++ " is "
      ++ status_text status

  unfoldable pub validate_offer_readiness :
      ℕ → ProviderSource → ArtifactOffer → ℕ → ValidationResult
  unfolding health_validation_status evidence_validation_status
  validate_offer_readiness clock source offer instant =
      let now = or_clock clock instant in
      let sh = health_validation_status source.health now in
      let oh = health_validation_status offer.health now in
      let se = evidence_validation_status source.evidence now in
      let oe = evidence_validation_status offer.evidence now in
      unless_valid sh "source_health" (source_message source "health" sh) (
        unless_valid oh "artifact_health" (artifact_message source offer "health" oh) (
          unless_valid se "source_evidence" (source_message source "evidence" se) (
            unless_valid oe "artifact_evidence" (artifact_message source offer "evidence" oe)
              valid_result)))

  -- Of a body that was marshalled, if it was.
  abbrev pub digest_of : Option String → String
  digest_of none = ""
  digest_of (some body) = lib.sha256_hex 32 body

  unfoldable pub snapshot_digest : CatalogSnapshot → String
  unfolding clone_snapshot
  snapshot_digest s = digest_of (
      lib.marshal (record (clone_snapshot s) {
        integrity = record { mode = ""; digest = ""; signature = "" };
      }))

  -- None where the slice of the digest panics.
  unfoldable pub attach_integrity : CatalogSnapshot → String → Option CatalogSnapshot
  unfolding snapshot_digest
  attach_integrity s signer =
      let digest = snapshot_digest (clone_snapshot s) in
      if ltb (len digest) 16
      then none
      else some (record (clone_snapshot s) {
        integrity = record {
          mode = Types.integrity_mode_signed_snapshot_v1;
          digest = digest;
          signature = "signed:" ++ trim_space signer ++ ":" ++ slice digest 0 16;
        };
      })
