-- ===== src/Catalog/Validation/Refusals.antt =====
-- A snapshot that ValidateSnapshot refuses is never told to be valid.
use Prim.Native.String.{String, ◌++◌}
use text.Mathlib.Text.{◌==◌ as str_eq}
use text.Mathlib.TextEquality.{eq_iff}
use vk_turn_proxy_go.Base.Text.{trim_space}
use vk_turn_proxy_go.Base.{ℕ, ◌≡◌, refl, sym, ◌∙◌, Bool, true, false, not, ◌==◌, ltb, List, [], ◌∷◌}
use vk_turn_proxy_go.Base.Result.{Result, ok, err, ◌>>◌, guard}
use vk_turn_proxy_go.Catalog.Types.{
  CatalogSnapshot, ProviderSource, ValidationStatus, status_text, valid, invalid, stale, unsigned,
  wrong_audience, wrong_issuer, wrong_endpoint, rollback, unsupported, missing_evidence, degraded,
  unavailable, schema_version,
}
use vk_turn_proxy_go.Catalog.Library.{Library}
use vk_turn_proxy_go.Catalog.Validation.{ValidationOptions, ValidationResult, or_clock}
use vk_turn_proxy_go.Catalog.Validation.Snapshot.{
  validate_snapshot, validate_name, validate_generation, validate_times, validate_signature,
  validate_source_shapes, validate_source_shape, source_failure, failure,
}

abbrev pub is_valid : ValidationStatus → Bool
is_valid valid = true
is_valid s = false

status_text_eq : (s : ValidationStatus) → str_eq (status_text s) (status_text valid) ≡ is_valid s
status_text_eq valid = refl
status_text_eq invalid = refl
status_text_eq stale = refl
status_text_eq unsigned = refl
status_text_eq wrong_audience = refl
status_text_eq wrong_issuer = refl
status_text_eq wrong_endpoint = refl
status_text_eq rollback = refl
status_text_eq unsupported = refl
status_text_eq missing_evidence = refl
status_text_eq degraded = refl
status_text_eq unavailable = refl

pub is_valid-status_text :
    (s : ValidationStatus) → status_text s ≡ status_text valid → is_valid s ≡ true
is_valid-status_text s h = sym (status_text_eq s) ∙ (eq_iff (status_text s) (status_text valid)).1 h

pub valid_of-is_valid : (s : ValidationStatus) → is_valid s ≡ true → s ≡ valid
valid_of-is_valid valid h = refl
valid_of-is_valid s h = cc

-- A refusal has another status than `valid`.
pub data RefusedAs : Result ValidationResult (Unit {0}) → Type 0 where
  accepted : {u : Unit {0}} → RefusedAs (ok u)
  refused : {r : ValidationResult} → is_valid r.status ≡ false → RefusedAs (err r)

pub of_refused : {r : ValidationResult} → RefusedAs (err r) → is_valid r.status ≡ false
of_refused (refused h) = h

guard-RefusedAs :
    (b : Bool) (r : ValidationResult) → is_valid r.status ≡ false → RefusedAs (guard b r)
guard-RefusedAs true r h = accepted
guard-RefusedAs false r h = refused h

both-RefusedAs :
    (m k : Result ValidationResult (Unit {0})) → RefusedAs m → RefusedAs k → RefusedAs (m >> k)
both-RefusedAs (ok u) k h g = g
both-RefusedAs (err r) k h g = refused (of_refused h)

checks-RefusedAs :
    (b d : Bool) (r t : ValidationResult)
    → is_valid r.status ≡ false
    → is_valid t.status ≡ false
    → RefusedAs (guard b r >> guard d t)
checks-RefusedAs b d r t h g =
    both-RefusedAs (guard b r) (guard d t) (guard-RefusedAs b r h) (guard-RefusedAs d t g)

module _ (lib : Library) where
  source_shapes-RefusedAs : (ss : List ProviderSource) → RefusedAs (validate_source_shapes lib ss)
  unfolding validate_source_shapes
  source_shapes-RefusedAs [] = accepted
  source_shapes-RefusedAs (s ∷ ss) =
      both-RefusedAs (source_failure lib (validate_source_shape lib s)) _
        (source_failure-RefusedAs (validate_source_shape lib s)) (source_shapes-RefusedAs ss)
    where
      source_failure-RefusedAs : (r : Result String (Unit {0})) → RefusedAs (source_failure lib r)
      source_failure-RefusedAs (ok u) = accepted
      source_failure-RefusedAs (err m) = refused refl

  name-RefusedAs :
      (missing mismatch what : String) (wrong : ValidationStatus) (found expected : String)
      → is_valid wrong ≡ false
      → RefusedAs (validate_name lib missing mismatch what wrong found expected)
  unfolding validate_name
  name-RefusedAs missing mismatch what wrong found expected h = checks-RefusedAs _ _ _ _ refl h

  signature-RefusedAs :
      (required : Bool) (s : CatalogSnapshot) → RefusedAs (validate_signature lib required s)
  unfolding validate_signature
  signature-RefusedAs false s = accepted
  signature-RefusedAs true s = checks-RefusedAs _ _ _ _ refl refl

  generation-RefusedAs : (found highest : ℕ) → RefusedAs (validate_generation lib found highest)
  unfolding validate_generation
  generation-RefusedAs found highest = checks-RefusedAs _ _ _ _ refl refl

  times-RefusedAs : (s : CatalogSnapshot) (now : ℕ) → RefusedAs (validate_times lib s now)
  unfolding validate_times
  times-RefusedAs s now =
      both-RefusedAs _ _
        (guard-RefusedAs (not (s.generated_at == 0))
          (failure invalid "generated_at_missing" "catalog generated_at is required") refl)
        (checks-RefusedAs (not (s.expires_at == 0)) (ltb now s.expires_at)
          (failure invalid "expires_at_missing" "catalog expires_at is required")
          (failure stale "snapshot_expired" ("catalog expired at " ++ lib.rfc3339 s.expires_at))
          refl refl)

  pub validate_snapshot-RefusedAs :
      (clock : ℕ) (s : CatalogSnapshot) (opts : ValidationOptions)
      → RefusedAs (validate_snapshot lib clock s opts)
  unfolding validate_snapshot
  validate_snapshot-RefusedAs clock s opts =
      both-RefusedAs _ _
        (guard-RefusedAs (str_eq (trim_space s.version) schema_version)
          (failure unsupported "unsupported_schema"
            ("catalog schema version " ++ lib.quote s.version ++ " is unsupported"))
          refl)
        (both-RefusedAs _ _
          (name-RefusedAs "issuer_missing" "issuer_mismatch" "issuer" wrong_issuer s.issuer
            opts.expected_issuer refl)
          (both-RefusedAs _ _
            (name-RefusedAs "audience_missing" "audience_mismatch" "audience" wrong_audience
              s.audience opts.expected_audience refl)
            (both-RefusedAs _ _
              (name-RefusedAs "endpoint_missing" "endpoint_mismatch" "endpoint_id" wrong_endpoint
                s.endpoint_id opts.expected_endpoint_id refl)
              (both-RefusedAs _ _
                (generation-RefusedAs s.generation opts.highest_accepted_generation)
                (both-RefusedAs _ _ (times-RefusedAs s (or_clock clock opts.now)) (
                  both-RefusedAs _ _ (signature-RefusedAs opts.require_signed s)
                    (source_shapes-RefusedAs s.sources)))))))
