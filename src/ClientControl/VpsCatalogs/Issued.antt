-- ===== src/ClientControl/VpsCatalogs/Issued.antt =====
-- What an artifact that is issued comes from.
use text.Mathlib.Text.{◌==◌ as str_eq}
use text.Mathlib.TextEquality.{eq_iff}
use Prim.Native.String.{String}
use vk_turn_proxy_go.Base.{
  ℕ, ◌≤◌, ◌≡◌, refl, ◌∙◌, ap, arith, subst, Bool, true, false, not, ◌&&◌, Option, none, some, ◌⊎◌,
  inl, inr, List, [], ◌∷◌, if_intro, at_head,
}
use vk_turn_proxy_go.Catalog.Offers.{
  IsOfferOf, IsOfferOf?, IsOfferIn, IsOfferOf?-cons, IsOfferIn-cons, IsOfferOf?-some,
}
use vk_turn_proxy_go.Catalog.Validation.Laws.{IsAcceptedSnapshot, validate_snapshot_iff}
use vk_turn_proxy_go.Catalog.Validation.Refusals.{
  RefusedAs, of_refused, is_valid-status_text, valid_of-is_valid, validate_snapshot-RefusedAs,
}
use vk_turn_proxy_go.Catalog.Validation.Snapshot.{validate_snapshot}
use vk_turn_proxy_go.Catalog.Validation.Readiness.{IsReady, validate_offer_readiness_iff}
use vk_turn_proxy_go.Base.Text.{is_empty}
use vk_turn_proxy_go.Base.TextDict.{lookup}
use vk_turn_proxy_go.Base.Result.{
  Result, ok, err, ◌>>=◌, ◌>>◌, guard, bind_ok, ok-injective, both_iff, guard_iff,
}
use vk_turn_proxy_go.Catalog.Types.{ProviderSource, ArtifactOffer, valid, status_text}
use vk_turn_proxy_go.Catalog.Messages.{ArtifactIssueResponse}
use vk_turn_proxy_go.Catalog.Library.{Library}
use vk_turn_proxy_go.Catalog.Validation.{ValidationResult, or_clock, validate_offer_readiness}
use vk_turn_proxy_go.ClientControl.VpsCatalogs.{CachedCatalog, Catalogs, CatalogStatus, options_for}
use vk_turn_proxy_go.ClientControl.VpsCatalogs.Issue.{
  IssueRequest, IssueRefusal, response_mismatch, response_rollback, find_offer, found_offer,
  find_in_offers, or_later, result_or_valid, artifact_not_ready, catalog_invalid,
  operation_required, if_ready, accept_response, current_status, choose_offer, issue_from,
  issue_artifact,
}

and_true3 : (a b c : Bool) → (a && b && c) ≡ true → (a ≡ true) × (b ≡ true) × (c ≡ true)
and_true3 true true c h = (refl, refl, h)
and_true3 true false c h = cc
and_true3 false b c h = cc

-- The response is of this request and of the kept catalog, or of a later one.
abbrev pub IsAnswerTo : IssueRequest → CachedCatalog → ArtifactIssueResponse → Type 0
IsAnswerTo req m response =
    (response.source.source_id ≡ req.source_id)
    × (response.artifact.offer_id ≡ req.offer_id)
    × (response.source.endpoint_id ≡ m.snapshot.endpoint_id)
    × (m.snapshot.generation ≤ response.source.generation)

accept_response-IsAnswerTo :
    (req : IssueRequest) (m : CachedCatalog) (response : ArtifactIssueResponse)
    → accept_response req m response ≡ ok tt
    → IsAnswerTo req m response
unfolding accept_response
accept_response-IsAnswerTo req m response h =
    let (a, b) =
      (both_iff _ _ (guard_iff _ response_mismatch) (guard_iff _ response_rollback)).0 h in
    let (s, o, e) = and_true3 _ _ _ a in
    ((eq_iff _ _).0 s, (eq_iff _ _).0 o, (eq_iff _ _).0 e, ground (arith, b))

guarded :
    {A : Type 0} (b : Bool) (e : IssueRefusal) (k : Result IssueRefusal A) (a : A)
    → (guard b e >> k) ≡ ok a
    → (b ≡ true) × (k ≡ ok a)
guarded true e k a h = (refl, h)
guarded false e k a h = cc

ok_of-valid :
    (r : Result ValidationResult (Unit {0}))
    → RefusedAs r
    → status_text (result_or_valid r).status ≡ status_text valid
    → r ≡ ok tt
ok_of-valid (ok tt) h e = refl
ok_of-valid (err r) h e = let v = is_valid-status_text r.status e in let w = of_refused h in cc

find_in_offers-IsOfferIn :
    (id : String) (os : List ArtifactOffer) → IsOfferIn id os (find_in_offers id os)
find_in_offers-IsOfferIn id [] = tt
find_in_offers-IsOfferIn id (o ∷ os) =
    if_intro (IsOfferIn id (o ∷ os)) (str_eq o.id id) _ _
      (λ e. (at_head refl, (eq_iff o.id id).0 e))
      (λ _. IsOfferIn-cons id o os (find_in_offers id os) (find_in_offers-IsOfferIn id os))

or_later-IsOfferOf? :
    (source_id offer_id : String) (s : ProviderSource) (ss : List ProviderSource)
    (o : Option ArtifactOffer) (rest : Option (ProviderSource × ArtifactOffer))
    → s.id ≡ source_id
    → IsOfferIn offer_id s.artifact_offers o
    → IsOfferOf? source_id offer_id (s ∷ ss) rest
    → IsOfferOf? source_id offer_id (s ∷ ss) (or_later s o rest)
or_later-IsOfferOf? source_id offer_id s ss none rest e h k = k
or_later-IsOfferOf? source_id offer_id s ss (some o) rest e (p, q) k = (at_head refl, e, p, q)

find_offer-IsOfferOf? :
    (source_id offer_id : String) (ss : List ProviderSource)
    → IsOfferOf? source_id offer_id ss (find_offer source_id offer_id ss)
unfolding find_offer
find_offer-IsOfferOf? source_id offer_id [] = tt
find_offer-IsOfferOf? source_id offer_id (s ∷ ss) =
    let rest = find_offer source_id offer_id ss in
    let later =
      IsOfferOf?-cons source_id offer_id s ss rest (find_offer-IsOfferOf? source_id offer_id ss) in
    if_intro (IsOfferOf? source_id offer_id (s ∷ ss)) (str_eq s.id source_id) _ _
      (λ e.
        or_later-IsOfferOf? source_id offer_id s ss (find_in_offers offer_id s.artifact_offers) rest
          ((eq_iff s.id source_id).0 e) (find_in_offers-IsOfferIn offer_id s.artifact_offers) later)
      (λ _. later)

found_offer-some :
    (o : Option (ProviderSource × ArtifactOffer)) (p : ProviderSource × ArtifactOffer)
    → found_offer o ≡ ok p
    → o ≡ some p
found_offer-some none p h = cc
found_offer-some (some q) p h = ap some (ok-injective h)

module _ (lib : Library) where
  -- The snapshot that is kept is accepted now, or there is none, and what was told of the catalog
  -- is that it is valid.
  abbrev pub IsValidNow : CachedCatalog → (clock now : ℕ) → Catalogs → Type 0
  IsValidNow m clock now c =
      ((is_empty m.snapshot.version ≡ true) × (m.status.validation_status ≡ status_text valid))
      ⊎ IsAcceptedSnapshot lib clock m.snapshot (options_for m.endpoint now c)

  current_status-IsValidNow :
      (m : CachedCatalog) (clock now : ℕ) (c : Catalogs)
      → (current_status lib m clock now c).validation_status ≡ status_text valid
      → IsValidNow m clock now c
  unfolding current_status
  current_status-IsValidNow m clock now c =
      let r = validate_snapshot lib clock m.snapshot (options_for m.endpoint now c) in
      if_intro
        (λ (s : CatalogStatus). s.validation_status ≡ status_text valid → IsValidNow m clock now c)
        (is_empty m.snapshot.version) _ _ (λ e h. inl (e, h))
        (λ _ h. inr (
          (validate_snapshot_iff lib clock m.snapshot (options_for m.endpoint now c)).0 (
            ok_of-valid r
              (validate_snapshot-RefusedAs lib clock m.snapshot (options_for m.endpoint now c)) h)))

  -- The kept catalog is valid now, and the offer is one of it, and ready.
  abbrev pub IsOffered :
      IssueRequest
      → CachedCatalog
      → (clock now : ℕ) → Catalogs
      → ProviderSource × ArtifactOffer
      → Type 0
  IsOffered req m clock now c p =
      IsValidNow m clock now c
      × IsOfferOf req.source_id req.offer_id m.snapshot.sources p
      × IsReady (or_clock clock now) p.0 p.1

  if_ready-ok :
      (clock now : ℕ) (q p : ProviderSource × ArtifactOffer)
      → if_ready lib clock now q ≡ ok p
      → (q ≡ p)
        × (status_text (validate_offer_readiness lib clock q.0 q.1 now).status ≡ status_text valid)
  if_ready-ok clock now q p h =
      let r = validate_offer_readiness lib clock q.0 q.1 now in
      let (a, b) =
        guarded (str_eq (status_text r.status) (status_text valid)) (artifact_not_ready r.message)
          (ok q) p h in
      (ok-injective b, (eq_iff (status_text r.status) (status_text valid)).0 a)

  choose_offer-IsOffered :
      (req : IssueRequest) (m : CachedCatalog) (clock now : ℕ) (c : Catalogs)
      (p : ProviderSource × ArtifactOffer)
      → choose_offer lib req m clock now c ≡ ok p
      → IsOffered req m clock now c p
  unfolding choose_offer
  choose_offer-IsOffered req m clock now c p h =
      let status = current_status lib m clock now c in
      let o = found_offer (find_offer req.source_id req.offer_id m.snapshot.sources) in
      let (v, k) =
        guarded (str_eq status.validation_status (status_text valid))
          (catalog_invalid status.message) (o >>= if_ready lib clock now) p h in
      let (q, f, r) = bind_ok o (if_ready lib clock now) p k in
      let (same, s) = if_ready-ok clock now q p r in
      let found =
        IsOfferOf?-some req.source_id req.offer_id m.snapshot.sources
          (find_offer req.source_id req.offer_id m.snapshot.sources) p
          (find_offer-IsOfferOf? req.source_id req.offer_id m.snapshot.sources)
          (found_offer-some _ p (f ∙ ap ok same)) in
      let ready = (validate_offer_readiness_iff lib clock now q.0 q.1).0 (
        let t = (validate_offer_readiness lib clock q.0 q.1 now).status in
        valid_of-is_valid t (is_valid-status_text t s)) in
      (
        current_status-IsValidNow m clock now c
            ((eq_iff status.validation_status (status_text valid)).0 v),
        found,
        subst (λ (x : ProviderSource × ArtifactOffer). IsReady (or_clock clock now) x.0 x.1) same
            ready,
      )

  abbrev pub IsIssuedFrom :
      IssueRequest
      → (clock now : ℕ) → Catalogs
      → ArtifactIssueResponse
      → ProviderSource × ArtifactOffer
      → CachedCatalog
      → Type 0
  IsIssuedFrom req clock now c response p m =
      IsOffered req m clock now c p × IsAnswerTo req m response

  issue_from-IsIssuedFrom :
      (o : Option CachedCatalog) (req : IssueRequest) (clock now : ℕ) (c : Catalogs)
      (response : ArtifactIssueResponse) (p : ProviderSource × ArtifactOffer)
      → issue_from lib o req clock now c response ≡ ok p
      → (m : CachedCatalog) × (o ≡ some m) × IsIssuedFrom req clock now c response p m
  issue_from-IsIssuedFrom none req clock now c response p h = cc
  issue_from-IsIssuedFrom (some m) req clock now c response p h =
      let after : ProviderSource × ArtifactOffer
          → Result IssueRefusal (ProviderSource × ArtifactOffer) =
        λ q. accept_response req m response >> ok q in
      let (q, f, r) = bind_ok (choose_offer lib req m clock now c) after p h in
      let (u, a, s) = bind_ok (accept_response req m response) (λ _. ok q) p r in
      (
        m,
        refl,
        (
          choose_offer-IsOffered req m clock now c p (f ∙ s),
          accept_response-IsAnswerTo req m response a,
        ),
      )

  -- Where IssueVPSProviderArtifact records a resolution, for a request that is trimmed, its host keeps a
  -- catalog of the endpoint of which the snapshot is accepted now, or which keeps no snapshot and was
  -- told to be valid; the source is one of this catalog under the identifier that is asked for, the
  -- offer one of the source under its own, and ready; and the response is of this source,
  -- offer and endpoint, and of no lower generation than the catalog.
  pub issue_artifact-IsIssuedFrom :
      (req : IssueRequest) (clock now : ℕ) (c : Catalogs) (response : ArtifactIssueResponse)
      (p : ProviderSource × ArtifactOffer)
      → issue_artifact lib req clock now c response ≡ ok p
      → (m : CachedCatalog) × (lookup req.endpoint_id c.cache ≡ some m)
        × IsIssuedFrom req clock now c response p m
  unfolding issue_artifact
  issue_artifact-IsIssuedFrom req clock now c response p h =
      let (_, k) =
        guarded (not (is_empty req.operation_id)) operation_required
          (issue_from lib (lookup req.endpoint_id c.cache) req clock now c response) p h in
      issue_from-IsIssuedFrom (lookup req.endpoint_id c.cache) req clock now c response p k
