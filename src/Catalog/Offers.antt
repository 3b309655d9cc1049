-- ===== src/Catalog/Offers.antt =====
-- What it is to find an offer of a source by the two identifiers.
use Prim.Native.String.{String}
use vk_turn_proxy_go.Base.{◌≡◌, List, ◌∷◌, Option, none, some, Among, in_tail}
use vk_turn_proxy_go.Catalog.Types.{ProviderSource, ArtifactOffer}

-- The source is one of these under its identifier, and the offer one of the source under its own.
abbrev pub IsOfferOf :
    (source_id offer_id : String) → List ProviderSource → ProviderSource × ArtifactOffer → Type 0
IsOfferOf source_id offer_id sources (source, offer) =
    Among source sources
    × (source.id ≡ source_id)
    × Among offer source.artifact_offers
    × (offer.id ≡ offer_id)

abbrev pub IsOfferOf? :
    (source_id offer_id : String)
    → List ProviderSource
    → Option (ProviderSource × ArtifactOffer)
    → Type 0
IsOfferOf? source_id offer_id sources none = Unit
IsOfferOf? source_id offer_id sources (some p) = IsOfferOf source_id offer_id sources p

-- What is found later in the list is found in the list.
pub IsOfferOf?-cons :
    (source_id offer_id : String) (s : ProviderSource) (sources : List ProviderSource)
    (o : Option (ProviderSource × ArtifactOffer))
    → IsOfferOf? source_id offer_id sources o
    → IsOfferOf? source_id offer_id (s ∷ sources) o
IsOfferOf?-cons source_id offer_id s sources none h = tt
IsOfferOf?-cons source_id offer_id s sources (some p) (a, b, c, d) = (in_tail a, b, c, d)

abbrev pub IsOfferIn : String → List ArtifactOffer → Option ArtifactOffer → Type 0
IsOfferIn id offers none = Unit
IsOfferIn id offers (some o) = Among o offers × (o.id ≡ id)

pub IsOfferIn-cons :
    (id : String) (a : ArtifactOffer) (offers : List ArtifactOffer) (o : Option ArtifactOffer)
    → IsOfferIn id offers o
    → IsOfferIn id (a ∷ offers) o
IsOfferIn-cons id a offers none h = tt
IsOfferIn-cons id a offers (some o) (p, q) = (in_tail p, q)

pub IsOfferOf?-some :
    (source_id offer_id : String) (sources : List ProviderSource)
    (o : Option (ProviderSource × ArtifactOffer)) (p : ProviderSource × ArtifactOffer)
    → IsOfferOf? source_id offer_id sources o
    → o ≡ some p
    → IsOfferOf source_id offer_id sources p
IsOfferOf?-some source_id offer_id sources none p h e = cc
IsOfferOf?-some source_id offer_id sources (some q) p h e = let same : q ≡ p = cc e in rw same at h
