-- ===== src/Catalog/Validation/Snapshot.antt =====
-- internal/vpscatalog/validation.go: ValidateSnapshot.
use Prim.Native.String.{String, ◌++◌}
use text.Mathlib.Text.{◌==◌ as str_eq}
use vk_turn_proxy_go.Base.{ℕ, Bool, true, false, not, ◌&&◌, ◌||◌, List, [], ◌∷◌, ◌==◌, ltb}
use vk_turn_proxy_go.Base.Text.{is_blank, is_empty, trim_space}
use vk_turn_proxy_go.Base.Result.{Result, ok, err, ◌>>◌, guard}
use vk_turn_proxy_go.Catalog.Types.{
  CatalogSnapshot, ProviderSource, ArtifactOffer, SnapshotIntegrity, schema_version,
  integrity_mode_signed_snapshot_v1, ValidationStatus, invalid, stale, unsigned, wrong_audience,
  wrong_issuer, wrong_endpoint, rollback, unsupported,
}
use vk_turn_proxy_go.Catalog.Library.{Library}
use vk_turn_proxy_go.Catalog.Validation.{
  ValidationOptions, ValidationResult, or_clock, snapshot_digest,
}

abbrev pub has_items : List String → Bool
has_items [] = false
has_items (x ∷ xs) = true

-- `fail`, of a message that is formatted.
abbrev pub failure : ValidationStatus → (reason message : String) → ValidationResult
failure s reason message = record { status = s; reason = reason; message = trim_space message }

-- No expectation, or the one that is met.
abbrev pub is_expected : (expected found : String) → Bool
is_expected expected found = is_empty expected || str_eq found expected

abbrev pub is_signed : SnapshotIntegrity → Bool
is_signed i =
    str_eq i.mode integrity_mode_signed_snapshot_v1
    && not (is_blank i.digest)
    && not (is_blank i.signature)

module _ (lib : Library) where
  -- A round of the loop over the offers of a source.
  unfoldable pub validate_offer_shape : ProviderSource → ArtifactOffer → Result String (Unit {0})
  validate_offer_shape source o =
      let place = "catalog source " ++ lib.quote source.id in
      let named = place ++ " offer " ++ lib.quote o.id in
      guard (not (is_blank o.id)) (place ++ " has an artifact offer without id")
      >> (guard (not (is_blank o.family)) (named ++ " family is required")
          >> (guard (has_items o.access_methods) (named ++ " access_methods are required")
              >> guard (has_items o.actions) (named ++ " actions are required")))

  unfoldable pub validate_offer_shapes :
      ProviderSource → List ArtifactOffer → Result String (Unit {0})
  unfolding validate_offer_shape
  validate_offer_shapes source [] = ok tt
  validate_offer_shapes source (o ∷ os) =
      validate_offer_shape source o >> validate_offer_shapes source os

  unfoldable pub validate_source_shape : ProviderSource → Result String (Unit {0})
  unfolding validate_offer_shapes
  validate_source_shape s =
      guard (not (is_blank s.id)) "catalog source id is required"
      >> (guard (not (is_blank s.provider_id))
            ("catalog source " ++ lib.quote s.id ++ " provider_id is required")
          >> validate_offer_shapes s s.artifact_offers)

  -- The error's text is the format here.
  abbrev pub source_failure : Result String (Unit {0}) → Result ValidationResult (Unit {0})
  source_failure (ok a) = ok tt
  source_failure (err message) = err (failure invalid "source_invalid" (lib.sprintf message))

  unfoldable pub validate_source_shapes : List ProviderSource → Result ValidationResult (Unit {0})
  unfolding validate_source_shape
  validate_source_shapes [] = ok tt
  validate_source_shapes (s ∷ ss) =
      source_failure (validate_source_shape s) >> validate_source_shapes ss

  -- `if opts.RequireSigned`.
  unfoldable pub validate_signature : Bool → CatalogSnapshot → Result ValidationResult (Unit {0})
  unfolding snapshot_digest
  validate_signature false s = ok tt
  validate_signature true s =
      guard (is_signed s.integrity)
        (failure unsigned "snapshot_unsigned" "catalog snapshot is not signed")
      >> guard (str_eq (snapshot_digest lib s) s.integrity.digest) (
          failure unsigned "snapshot_digest_mismatch"
            "catalog snapshot digest does not match integrity metadata")

  -- The checks of the issuer, the audience and the endpoint: what, its text, and what is expected.
  unfoldable pub validate_name :
      (missing mismatch what : String) (wrong : ValidationStatus) (found expected : String)
      → Result ValidationResult (Unit {0})
  validate_name missing mismatch what wrong found expected =
      guard (not (is_blank found)) (failure invalid missing ("catalog " ++ what ++ " is required"))
      >> guard (is_expected expected found) (
          failure wrong mismatch (
            "catalog "
            ++ what
            ++ " "
            ++ lib.quote found
            ++ " does not match expected "
            ++ what
            ++ " "
            ++ lib.quote expected))

  unfoldable pub validate_generation : (found highest : ℕ) → Result ValidationResult (Unit {0})
  validate_generation found highest =
      guard (not (found == 0))
        (failure invalid "generation_missing" "catalog generation is required")
      >> guard (not (ltb 0 highest && ltb found highest)) (
          failure rollback "generation_rollback" (
            "catalog generation "
            ++ lib.sprint found
            ++ " is below highest accepted generation "
            ++ lib.sprint highest))

  unfoldable pub validate_times : CatalogSnapshot → ℕ → Result ValidationResult (Unit {0})
  validate_times s now =
      guard (not (s.generated_at == 0))
        (failure invalid "generated_at_missing" "catalog generated_at is required")
      >> (guard (not (s.expires_at == 0))
            (failure invalid "expires_at_missing" "catalog expires_at is required")
          >> guard (ltb now s.expires_at) (
              failure stale "snapshot_expired" ("catalog expired at " ++ lib.rfc3339 s.expires_at)))

  unfoldable pub validate_snapshot :
      ℕ → CatalogSnapshot → ValidationOptions → Result ValidationResult (Unit {0})
  unfolding validate_name validate_generation validate_times validate_signature
      validate_source_shapes
  validate_snapshot clock s opts =
      guard (str_eq (trim_space s.version) schema_version) (
        failure unsupported "unsupported_schema"
          ("catalog schema version " ++ lib.quote s.version ++ " is unsupported"))
      >> (validate_name "issuer_missing" "issuer_mismatch" "issuer" wrong_issuer s.issuer
            opts.expected_issuer
          >> (validate_name "audience_missing" "audience_mismatch" "audience" wrong_audience
                s.audience opts.expected_audience
              >> (validate_name "endpoint_missing" "endpoint_mismatch" "endpoint_id" wrong_endpoint
                    s.endpoint_id opts.expected_endpoint_id
                  >> (validate_generation s.generation opts.highest_accepted_generation
                      >> (validate_times s (or_clock clock opts.now)
                          >> (validate_signature opts.require_signed s
                              >> validate_source_shapes s.sources))))))
