-- ===== src/Catalog/Validation/Readiness.antt =====
-- When an offer is ready.
use Prim.Native.String.{String}
use text.Mathlib.TextEquality.{eq_iff}
use vk_turn_proxy_go.Base.{
  ℕ, ◌<◌, ◌≡◌, refl, ◌↔◌, ◌⊎◌, false, List, [], ◌∷◌, Option, none, some, arith, All, length,
}
use vk_turn_proxy_go.Catalog.Types.{
  ProviderSource, ArtifactOffer, Health, Evidence, health_status_healthy, evidence_status_fresh,
  ValidationStatus, valid,
}
use vk_turn_proxy_go.Catalog.Library.{Library}
use vk_turn_proxy_go.Catalog.Validation.{
  ValidationResult, valid_result, or_clock, is_past, health_validation_status, evidence_item_status,
  evidence_loop, evidence_validation_status, validate_offer_readiness, unless_valid, or_else,
}

abbrev pub IsCurrent : Option ℕ → ℕ → Type 0
IsCurrent none now = Unit
IsCurrent (some t) now = now < t

abbrev pub IsHealthy : ℕ → Health → Type 0
IsHealthy now h =
    ((h.status ≡ "") ⊎ (h.status ≡ health_status_healthy)) × IsCurrent h.expires_at now

abbrev pub IsFresh : ℕ → Evidence → Type 0
IsFresh now e = (e.status ≡ evidence_status_fresh) × IsCurrent e.expires_at now

abbrev pub IsEvident : ℕ → List Evidence → Type 0
IsEvident now es = (0 < length es) × All (IsFresh now) es

abbrev pub IsReady : ℕ → ProviderSource → ArtifactOffer → Type 0
IsReady now s o =
    IsHealthy now s.health
    × (IsHealthy now o.health × (IsEvident now s.evidence × IsEvident now o.evidence))

is_past_iff : (t : Option ℕ) (now : ℕ) → (is_past t now ≡ false) ↔ IsCurrent t now
is_past_iff none now = (λ h. tt, λ h. refl)
is_past_iff (some t) now = ground arith

health_iff : (now : ℕ) (h : Health) → (health_validation_status h now ≡ valid) ↔ IsHealthy now h
unfolding health_validation_status
health_iff now h =
    ground (arith, eq_iff h.status "", eq_iff h.status "healthy", is_past_iff h.expires_at now)

item_iff : (now : ℕ) (e : Evidence) → (evidence_item_status e now ≡ valid) ↔ IsFresh now e
unfolding evidence_item_status
item_iff now e = ground (arith, eq_iff e.status "fresh", is_past_iff e.expires_at now)

or_else_iff : (s t : ValidationStatus) → (or_else s t ≡ valid) ↔ ((s ≡ valid) × (t ≡ valid))
or_else_iff s t = ground arith

loop_iff : (now : ℕ) (es : List Evidence) → (evidence_loop es now ≡ valid) ↔ All (IsFresh now) es
unfolding evidence_loop
loop_iff now [] = (λ h. tt, λ h. refl)
loop_iff now (e ∷ es) =
    let o = or_else_iff (evidence_item_status e now) (evidence_loop es now) in
    let i = item_iff now e in
    let l = loop_iff now es in (λ h. (i.0 (o.0 h).0, l.0 (o.0 h).1), λ h. o.1 (i.1 h.0, l.1 h.1))

evidence_iff :
    (now : ℕ) (es : List Evidence) → (evidence_validation_status es now ≡ valid) ↔ IsEvident now es
unfolding evidence_validation_status
evidence_iff now [] = (λ h. cc, λ h. absurd (omega (arith, h.0)))
evidence_iff now (e ∷ es) =
    let l = loop_iff now (e ∷ es) in (λ h. (omega arith, l.0 h), λ h. l.1 h.1)

unless_valid_iff :
    (s : ValidationStatus) (reason message : String) (rest : ValidationResult) {P Q : Type 0}
    → (s ≡ valid) ↔ P
    → (rest.status ≡ valid) ↔ Q
    → ((unless_valid s reason message rest).status ≡ valid) ↔ (P × Q)
unless_valid_iff valid reason message rest p q = (λ h. (p.0 refl, q.0 h), λ h. q.1 h.1)
unless_valid_iff s reason message rest p q = (λ h. cc, λ h. let x = p.1 h.0 in cc)

-- ValidateOfferReadiness calls an offer ready exactly when the offer and its source are healthy and
-- each has evidence, all of it fresh, and nothing of this has expired.
pub validate_offer_readiness_iff :
    (lib : Library) (clock instant : ℕ) (s : ProviderSource) (o : ArtifactOffer)
    → ((validate_offer_readiness lib clock s o instant).status ≡ valid)
      ↔ IsReady (or_clock clock instant) s o
unfolding validate_offer_readiness
validate_offer_readiness_iff lib clock instant s o =
    let now = or_clock clock instant in
    unless_valid_iff _ _ _ _ (health_iff now s.health) (
      unless_valid_iff _ _ _ _ (health_iff now o.health) (
        unless_valid_iff _ _ _ _ (evidence_iff now s.evidence) (
          let e = evidence_iff now o.evidence in
          let w = unless_valid_iff _ "artifact_evidence" _ valid_result e (λ u. tt, λ u. refl) in
          (λ h. (w.0 h).0, λ h. w.1 (h, tt)))))
