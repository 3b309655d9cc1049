-- ===== src/Catalog/Validation/Laws.antt =====
-- Which snapshots are accepted, and which offers are ready.
use Prim.Native.String.{String}
use text.Mathlib.Text.{◌==◌ as str_eq}
use text.Mathlib.TextEquality.{eq_iff}
use vk_turn_proxy_go.Base.{
  ℕ, ◌≤◌, ◌<◌, ◌≡◌, refl, ◌↔◌, ◌⊎◌, inl, inr, Bool, true, false, not, ◌&&◌, List, [], ◌∷◌, arith,
  All, ◌==◌, ltb,
}
use vk_turn_proxy_go.Base.Text.{is_blank, trim_space, HasText, is_empty_iff}
use vk_turn_proxy_go.Base.Result.{Result, ok, err, both_iff, guard_iff, guard-not_iff, guard_then}
use vk_turn_proxy_go.Catalog.Types.{
  CatalogSnapshot, ProviderSource, ArtifactOffer, SnapshotIntegrity, schema_version,
  integrity_mode_signed_snapshot_v1, ValidationStatus, wrong_issuer, wrong_audience, wrong_endpoint,
}
use vk_turn_proxy_go.Catalog.Library.{Library}
use vk_turn_proxy_go.Catalog.Validation.{ValidationOptions, or_clock, snapshot_digest}
use vk_turn_proxy_go.Catalog.Validation.Snapshot.{
  validate_snapshot, validate_name, validate_generation, validate_times, validate_signature,
  validate_source_shapes, validate_source_shape, validate_offer_shapes, validate_offer_shape,
  has_items, is_signed, is_expected, source_failure,
}

-- Said at all, and as expected, if anything is expected.
abbrev pub IsNamed : (found expected : String) → Type 0
IsNamed found expected = HasText found × ((expected ≡ "") ⊎ (found ≡ expected))

abbrev pub HasItems : List String → Type 0
HasItems xs = has_items xs ≡ true

abbrev pub IsOfferShape : ArtifactOffer → Type 0
IsOfferShape o =
    HasText o.id × (HasText o.family × (HasItems o.access_methods × HasItems o.actions))

abbrev pub IsSourceShape : ProviderSource → Type 0
IsSourceShape s = HasText s.id × (HasText s.provider_id × All IsOfferShape s.artifact_offers)

abbrev pub IsSigned : SnapshotIntegrity → Type 0
IsSigned i = (i.mode ≡ integrity_mode_signed_snapshot_v1) × (HasText i.digest × HasText i.signature)

abbrev pub IsDue : CatalogSnapshot → ℕ → Type 0
IsDue s now = (0 < s.generated_at) × (now < s.expires_at)

is_expected_iff :
    (expected found : String)
    → (is_expected expected found ≡ true) ↔ ((expected ≡ "") ⊎ (found ≡ expected))
is_expected_iff expected found = ground (arith, is_empty_iff expected, eq_iff found expected)

not-blank_iff : (s : String) → (not (is_blank s) ≡ true) ↔ HasText s
not-blank_iff s = ground arith

is_signed_iff : (i : SnapshotIntegrity) → (is_signed i ≡ true) ↔ IsSigned i
is_signed_iff i = ground (arith, eq_iff i.mode integrity_mode_signed_snapshot_v1)

module _ (lib : Library) where
  validate_offer_shape_iff :
      (s : ProviderSource) (o : ArtifactOffer)
      → (validate_offer_shape lib s o ≡ ok tt) ↔ IsOfferShape o
  unfolding validate_offer_shape
  validate_offer_shape_iff s o = both_iff _ _ (guard-not_iff (is_blank o.id) _) (
      both_iff _ _ (guard-not_iff (is_blank o.family) _) (
        both_iff _ _ (guard_iff (has_items o.access_methods) _)
          (guard_iff (has_items o.actions) _)))

  All-IsOfferShape_iff :
      (s : ProviderSource) (os : List ArtifactOffer)
      → (validate_offer_shapes lib s os ≡ ok tt) ↔ All IsOfferShape os
  unfolding validate_offer_shapes
  All-IsOfferShape_iff s [] = (λ h. tt, λ h. refl)
  All-IsOfferShape_iff s (o ∷ os) =
      both_iff _ _ (validate_offer_shape_iff s o) (All-IsOfferShape_iff s os)

  validate_source_shape_iff :
      (s : ProviderSource) → (validate_source_shape lib s ≡ ok tt) ↔ IsSourceShape s
  unfolding validate_source_shape
  validate_source_shape_iff s = both_iff _ _ (guard-not_iff (is_blank s.id) _) (
      both_iff _ _ (guard-not_iff (is_blank s.provider_id) _)
        (All-IsOfferShape_iff s s.artifact_offers))

  source_failure_iff : (r : Result String (Unit {0})) → (source_failure lib r ≡ ok tt) ↔ (r ≡ ok tt)
  source_failure_iff (ok tt) = (λ h. refl, λ h. refl)
  source_failure_iff (err e) = (λ h. cc, λ h. cc)

  All-IsSourceShape_iff :
      (ss : List ProviderSource) → (validate_source_shapes lib ss ≡ ok tt) ↔ All IsSourceShape ss
  unfolding validate_source_shapes
  All-IsSourceShape_iff [] = (λ h. tt, λ h. refl)
  All-IsSourceShape_iff (s ∷ ss) =
      let p = source_failure_iff (validate_source_shape lib s) in
      let q = validate_source_shape_iff s in
      both_iff _ _ (λ h. q.0 (p.0 h), λ h. p.1 (q.1 h)) (All-IsSourceShape_iff ss)

  name_iff :
      (missing mismatch what : String) (wrong : ValidationStatus) (found expected : String)
      → (validate_name lib missing mismatch what wrong found expected ≡ ok tt)
        ↔ IsNamed found expected
  unfolding validate_name
  name_iff missing mismatch what wrong found expected =
      both_iff _ _ (guard-not_iff (is_blank found) _)
        (guard_then (is_expected expected found) _ (is_expected_iff expected found))

  generation_iff :
      (found highest : ℕ)
      → (validate_generation lib found highest ≡ ok tt) ↔ ((0 < found) × (highest ≤ found))
  unfolding validate_generation
  generation_iff found highest =
      let p : (not (found == 0) ≡ true) ↔ (0 < found) = ground arith in
      let b = not (ltb 0 highest && ltb found highest) in
      let q : (b ≡ true) ↔ (highest ≤ found) = ground arith in
      both_iff _ _ (guard_then (not (found == 0)) _ p) (guard_then b _ q)

  times_iff : (s : CatalogSnapshot) (now : ℕ) → (validate_times lib s now ≡ ok tt) ↔ IsDue s now
  unfolding validate_times
  times_iff s now =
      let p : (not (s.generated_at == 0) ≡ true) ↔ (0 < s.generated_at) = ground arith in
      let q : (not (s.expires_at == 0) ≡ true) ↔ (0 < s.expires_at) = ground arith in
      let r : (ltb now s.expires_at ≡ true) ↔ (now < s.expires_at) = ground arith in
      let w = both_iff _ _ (guard_then (not (s.generated_at == 0)) _ p) (
        both_iff _ _ (guard_then (not (s.expires_at == 0)) _ q)
          (guard_then (ltb now s.expires_at) _ r)) in
      (λ h. let x = w.0 h in (x.0, x.1.1), λ h. w.1 (h.0, (omega (arith, h.1), h.1)))

  signature_iff :
      (required : Bool) (s : CatalogSnapshot)
      → (validate_signature lib required s ≡ ok tt) ↔ (
          (required ≡ false)
          ⊎ (IsSigned s.integrity × (snapshot_digest lib s ≡ s.integrity.digest)))
  unfolding validate_signature
  signature_iff false s = (λ h. inl refl, λ h. refl)
  signature_iff true s =
      let d = snapshot_digest lib s in
      let w =
        both_iff _ _ (guard_then (is_signed s.integrity) _ (is_signed_iff s.integrity))
          (guard_then (str_eq d s.integrity.digest) _ (eq_iff d s.integrity.digest)) in
      (λ h. inr (w.0 h), λ h. elim h [ inl e ↦ cc | inr x ↦ w.1 x ])

  abbrev pub IsAcceptedSnapshot : ℕ → CatalogSnapshot → ValidationOptions → Type 0
  IsAcceptedSnapshot clock s opts =
      (trim_space s.version ≡ schema_version)
      × (IsNamed s.issuer opts.expected_issuer
          × (IsNamed s.audience opts.expected_audience
              × (IsNamed s.endpoint_id opts.expected_endpoint_id
                  × (((0 < s.generation) × (opts.highest_accepted_generation ≤ s.generation))
                      × (IsDue s (or_clock clock opts.now)
                          × (((opts.require_signed ≡ false)
                                ⊎ (IsSigned s.integrity
                                    × (snapshot_digest lib s ≡ s.integrity.digest)))
                              × All IsSourceShape s.sources))))))

  -- ValidateSnapshot accepts exactly the snapshots of the schema's version with an issuer, an audience
  -- and an endpoint, each the expected one if one is expected, with a generation that is neither 0 nor
  -- below the highest accepted one, made at some time and not expired, signed with their own
  -- digest if this is required, and whose sources and offers have all that they need.
  pub validate_snapshot_iff :
      (clock : ℕ) (s : CatalogSnapshot) (opts : ValidationOptions)
      → (validate_snapshot lib clock s opts ≡ ok tt) ↔ IsAcceptedSnapshot clock s opts
  unfolding validate_snapshot
  validate_snapshot_iff clock s opts =
      both_iff _ _
        (guard_then (str_eq (trim_space s.version) schema_version) _
          (eq_iff (trim_space s.version) schema_version))
        (both_iff _ _
          (name_iff "issuer_missing" "issuer_mismatch" "issuer" wrong_issuer s.issuer
            opts.expected_issuer)
          (both_iff _ _
            (name_iff "audience_missing" "audience_mismatch" "audience" wrong_audience s.audience
              opts.expected_audience)
            (both_iff _ _
              (name_iff "endpoint_missing" "endpoint_mismatch" "endpoint_id" wrong_endpoint
                s.endpoint_id opts.expected_endpoint_id)
              (both_iff _ _ (generation_iff s.generation opts.highest_accepted_generation) (
                both_iff _ _ (times_iff s (or_clock clock opts.now)) (
                  both_iff _ _ (signature_iff opts.require_signed s)
                    (All-IsSourceShape_iff s.sources)))))))
