-- ===== src/Catalog/Service/Ttl.antt =====
-- What is issued, and for how long.
use Prim.Native.String.{String}
use text.Mathlib.Text.{◌==◌ as str_eq}
use text.Mathlib.TextEquality.{eq_iff}
use vk_turn_proxy_go.Base.{
  ℕ, ◌+◌, ◌*◌, ◌≤◌, ◌<◌, ◌≡◌, refl, sym, ap, subst, ◌∙◌, true, not, ◌&&◌, ◌||◌, Option, none, some,
  arith, if◌then◌else◌, ltb, List, [], ◌∷◌, if_intro, at_head,
}
use vk_turn_proxy_go.Catalog.Offers.{
  IsOfferOf, IsOfferOf?, IsOfferIn, IsOfferOf?-cons, IsOfferIn-cons, IsOfferOf?-some,
}
use vk_turn_proxy_go.Base.Int.{ℤ, pos, negsuc, is_pos, int_ltb, seconds}
use vk_turn_proxy_go.Catalog.Types.{
  ArtifactOffer, ProviderSource, CatalogSnapshot, ValidationStatus, valid,
}
use vk_turn_proxy_go.Catalog.Messages.{ArtifactIssueRequest, ArtifactIssueResponse}
use vk_turn_proxy_go.Catalog.Clone.{clone_snapshot_id, clone_source_id, clone_offer_id}
use vk_turn_proxy_go.Catalog.Library.{Library}
use vk_turn_proxy_go.Catalog.Validation.{ValidationResult, or_clock, validate_offer_readiness}
use vk_turn_proxy_go.Catalog.Validation.Readiness.{IsReady, validate_offer_readiness_iff}
use vk_turn_proxy_go.Catalog.Service.Issue.{
  issued, decide, if_ready, offer_outcome, issue_response, effective_ttl, find_offer, or_minute,
  offer_in, offer_among, found_in,
}

or_minute_pos : (z : ℤ) → 0 < or_minute z
or_minute_pos (pos n) = ground arith
or_minute_pos (negsuc n) = omega arith

effective_ttl_pos : (requested max : ℤ) → 0 < effective_ttl requested max
unfolding effective_ttl
effective_ttl_pos requested max =
    let limit = seconds max in
    let ttl = seconds requested in
    or_minute_pos (if not (is_pos ttl) || (is_pos max && int_ltb limit ttl) then limit else ttl)

-- A number of seconds whose nanoseconds fit is not wrapped.
seconds_small : (m : ℕ) → m ≤ 9223372036 → seconds (pos m) ≡ pos (m * 1000000000)
unfolding seconds
seconds_small m h = ground arith

-- What is positive and not above the limit is at most the limit.
clamp_le :
    (limit : ℕ) (ttl : ℤ)
    → 0 < limit
    → or_minute (if not (is_pos ttl) || (true && int_ltb (pos limit) ttl) then pos limit else ttl)
      ≤ limit
clamp_le limit (pos n) h = ground arith
clamp_le limit (negsuc n) h = ground arith

effective_ttl_le :
    (requested : ℤ) (m : ℕ)
    → 0 < m
    → m ≤ 9223372036
    → effective_ttl requested (pos m) ≤ m * 1000000000
unfolding effective_ttl
effective_ttl_le requested m h l =
    let t : ltb 0 m ≡ true = ground arith in
    rw (seconds_small m l, t) (clamp_le (m * 1000000000) (seconds requested) (omega arith))

offer_in-IsOfferIn : (id : String) (os : List ArtifactOffer) → IsOfferIn id os (offer_in id os)
offer_in-IsOfferIn id [] = tt
offer_in-IsOfferIn id (o ∷ os) =
    if_intro (IsOfferIn id (o ∷ os)) (str_eq o.id id) _ _
      (λ e. (at_head refl, (eq_iff o.id id).0 e))
      (λ _. IsOfferIn-cons id o os (offer_in id os) (offer_in-IsOfferIn id os))

found_in-IsOfferOf? :
    (source_id offer_id : String) (s : ProviderSource) (ss : List ProviderSource)
    (o : Option ArtifactOffer) (rest : Option (ProviderSource × ArtifactOffer))
    → s.id ≡ source_id
    → IsOfferIn offer_id s.artifact_offers o
    → IsOfferOf? source_id offer_id (s ∷ ss) rest
    → IsOfferOf? source_id offer_id (s ∷ ss) (found_in s o rest)
found_in-IsOfferOf? source_id offer_id s ss none rest e h k = k
found_in-IsOfferOf? source_id offer_id s ss (some o) rest e (p, q) k =
    rw (clone_source_id s, clone_offer_id o) (at_head refl, e, p, q)

offer_among-IsOfferOf? :
    (source_id offer_id : String) (ss : List ProviderSource)
    → IsOfferOf? source_id offer_id ss (offer_among source_id offer_id ss)
offer_among-IsOfferOf? source_id offer_id [] = tt
offer_among-IsOfferOf? source_id offer_id (s ∷ ss) =
    let rest = offer_among source_id offer_id ss in
    let later =
      IsOfferOf?-cons source_id offer_id s ss rest (offer_among-IsOfferOf? source_id offer_id ss) in
    if_intro (IsOfferOf? source_id offer_id (s ∷ ss)) (str_eq s.id source_id) _ _
      (λ e.
        found_in-IsOfferOf? source_id offer_id s ss (offer_in offer_id s.artifact_offers) rest
          ((eq_iff s.id source_id).0 e) (offer_in-IsOfferIn offer_id s.artifact_offers) later)
      (λ _. later)

module _ (lib : Library) where
  if_ready_inv :
      (s : CatalogSnapshot) (req : ArtifactIssueRequest) (source a : ProviderSource)
      (offer b : ArtifactOffer) (now : ℕ) (status : ValidationStatus) (r : ValidationResult)
      (response : ArtifactIssueResponse)
      → if_ready lib s req source offer now status r ≡ issued a b response
      → (status ≡ valid)
        × (source ≡ a)
        × (offer ≡ b)
        × (response ≡ issue_response lib s req source offer now)
  if_ready_inv s req source a offer b now valid r response h = (refl, cc, cc, cc)
  if_ready_inv s req source a offer b now status r response h = cc

  offer_outcome_inv :
      (clock now : ℕ) (s : CatalogSnapshot) (req : ArtifactIssueRequest)
      (found : Option (ProviderSource × ArtifactOffer)) (source : ProviderSource)
      (offer : ArtifactOffer) (response : ArtifactIssueResponse)
      → offer_outcome lib clock now s req found ≡ issued source offer response
      → (found ≡ some (source, offer))
        × IsReady (or_clock clock now) source offer
        × (response ≡ issue_response lib s req source offer now)
  offer_outcome_inv clock now s req none source offer response h = cc
  offer_outcome_inv clock now s req (some (a, b)) source offer response h =
      let r = validate_offer_readiness lib clock a b now in
      let (v, p, q, e) = if_ready_inv s req a source b offer now r.status r response h in
      let ready = (validate_offer_readiness_iff lib clock now a b).0 v in
      (rw (p, q) refl, rw (p, q) at ready, rw (p, q) at e)

  decide_inv :
      (clock now : ℕ) (s : CatalogSnapshot) (req : ArtifactIssueRequest) (source : ProviderSource)
      (offer : ArtifactOffer) (response : ArtifactIssueResponse)
      → decide lib clock now s req ≡ issued source offer response
      → (find_offer s req.source_id req.offer_id ≡ some (source, offer))
        × IsReady (or_clock clock now) source offer
        × (response ≡ issue_response lib s req source offer now)
  unfolding decide
  decide_inv clock now s req source offer response h =
      let (p, q, e) = offer_outcome_inv clock now s req _ source offer response h in
      let same = ap (λ x. find_offer x req.source_id req.offer_id) (clone_snapshot_id s) in
      (sym same ∙ p, q, e)

  -- What the service issues is an offer of its snapshot, of a source of the snapshot, each under the
  -- identifier that is asked for, ready at that time, and it expires later than it is issued.
  pub decide-issued :
      (clock now : ℕ) (s : CatalogSnapshot) (req : ArtifactIssueRequest) (source : ProviderSource)
      (offer : ArtifactOffer) (response : ArtifactIssueResponse)
      → decide lib clock now s req ≡ issued source offer response
      → IsOfferOf req.source_id req.offer_id s.sources (source, offer)
        × IsReady (or_clock clock now) source offer
        × (now < response.expires_at)
  unfolding issue_response find_offer
  decide-issued clock now s req source offer response h =
      let (p, q, e) = decide_inv clock now s req source offer response h in
      let x = ap (λ (r : ArtifactIssueResponse). r.expires_at) e in
      let b = effective_ttl_pos req.ttl_seconds offer.max_ttl_seconds in
      let found =
        IsOfferOf?-some req.source_id req.offer_id s.sources
          (offer_among req.source_id req.offer_id s.sources) (source, offer)
          (offer_among-IsOfferOf? req.source_id req.offer_id s.sources) p in
      (found, q, omega (arith, x, b))

  -- Where the offer allows a positive number of seconds, of which the nanoseconds fit 64 bits, what is
  -- issued expires at most so many seconds later, whatever is requested.
  pub decide-issued_le :
      (clock now m : ℕ) (s : CatalogSnapshot) (req : ArtifactIssueRequest) (source : ProviderSource)
      (offer : ArtifactOffer) (response : ArtifactIssueResponse)
      → decide lib clock now s req ≡ issued source offer response
      → offer.max_ttl_seconds ≡ pos m
      → 0 < m
      → m ≤ 9223372036
      → response.expires_at ≤ now + m * 1000000000
  unfolding issue_response
  decide-issued_le clock now m s req source offer response h d g l =
      let (p, q, e) = decide_inv clock now s req source offer response h in
      let x = ap (λ (r : ArtifactIssueResponse). r.expires_at) e in
      let c = effective_ttl_le req.ttl_seconds m g l in
      let c2 = subst (λ z. effective_ttl req.ttl_seconds z ≤ m * 1000000000) (sym d) c in
      omega (arith, x, c2)
