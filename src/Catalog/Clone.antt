-- ===== src/Catalog/Clone.antt =====
-- internal/vpscatalog/clone.go: deep copies. Values of the model share nothing, so what a copy can do
-- wrong is to lose or to change content.
use vk_turn_proxy_go.Base.{ℕ, ◌≡◌, refl, List, [], ◌∷◌, Option, none, some}
use vk_turn_proxy_go.Catalog.Types.{
  Health, Evidence, ArtifactOffer, ProviderSource, CatalogSnapshot,
}

-- In UTC, the same instant.
abbrev clone_time_pointer : Option ℕ → Option ℕ
clone_time_pointer none = none
clone_time_pointer (some t) = some t

abbrev clone_health : Health → Health
clone_health h = record h {
  checked_at = clone_time_pointer h.checked_at;
  expires_at = clone_time_pointer h.expires_at;
}

abbrev clone_evidence_item : Evidence → Evidence
clone_evidence_item e = record e {
  observed_at = clone_time_pointer e.observed_at;
  expires_at = clone_time_pointer e.expires_at;
}

abbrev clone_evidence : List Evidence → List Evidence
clone_evidence [] = []
clone_evidence (e ∷ es) = clone_evidence_item e ∷ clone_evidence es

unfoldable pub clone_offer : ArtifactOffer → ArtifactOffer
clone_offer o = record o { health = clone_health o.health; evidence = clone_evidence o.evidence }

abbrev clone_offers : List ArtifactOffer → List ArtifactOffer
clone_offers [] = []
clone_offers (o ∷ os) = clone_offer o ∷ clone_offers os

unfoldable pub clone_source : ProviderSource → ProviderSource
clone_source s = record s {
  health = clone_health s.health;
  evidence = clone_evidence s.evidence;
  artifact_offers = clone_offers s.artifact_offers;
}

abbrev clone_sources : List ProviderSource → List ProviderSource
clone_sources [] = []
clone_sources (s ∷ ss) = clone_source s ∷ clone_sources ss

unfoldable pub clone_snapshot : CatalogSnapshot → CatalogSnapshot
unfolding clone_offer clone_source
clone_snapshot s = record s { sources = clone_sources s.sources }

time_id : (t : Option ℕ) → clone_time_pointer t ≡ t
time_id none = refl
time_id (some t) = refl

health_id : (h : Health) → clone_health h ≡ h
health_id h = rw (time_id h.checked_at, time_id h.expires_at)

evidence_id : (es : List Evidence) → clone_evidence es ≡ es
evidence_id [] = refl
evidence_id (e ∷ es) = rw (time_id e.observed_at, time_id e.expires_at, evidence_id es)

pub clone_offer_id : (o : ArtifactOffer) → clone_offer o ≡ o
unfolding clone_offer
clone_offer_id o = rw (health_id o.health, evidence_id o.evidence)

offers_id : (os : List ArtifactOffer) → clone_offers os ≡ os
offers_id [] = refl
offers_id (o ∷ os) = rw (clone_offer_id o, offers_id os)

pub clone_source_id : (s : ProviderSource) → clone_source s ≡ s
unfolding clone_source
clone_source_id s = rw (health_id s.health, evidence_id s.evidence, offers_id s.artifact_offers)

sources_id : (ss : List ProviderSource) → clone_sources ss ≡ ss
sources_id [] = refl
sources_id (s ∷ ss) = rw (clone_source_id s, sources_id ss)

-- A copy of a snapshot has the content of the snapshot.
pub clone_snapshot_id : (s : CatalogSnapshot) → clone_snapshot s ≡ s
unfolding clone_snapshot
clone_snapshot_id s = rw (sources_id s.sources)
