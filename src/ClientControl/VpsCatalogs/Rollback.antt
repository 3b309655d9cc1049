-- ===== src/ClientControl/VpsCatalogs/Rollback.antt =====
-- No catalog of an endpoint follows a later one.
use Prim.Native.String.{String}
use text.Mathlib.Text.{◌==◌ as str_eq}
use text.Mathlib.TextEquality.{eq_iff}
use vk_turn_proxy_go.Base.{
  ℕ, ◌≤◌, ◌≡◌, refl, ◌∙◌, subst, arith, Bool, true, List, [], ◌∷◌, Option, none, some, if_intro,
  Bool-cases, inl, inr, ltb,
}
use vk_turn_proxy_go.Base.TextDict.{lookup, insert, lookup-insert}
use vk_turn_proxy_go.Base.Result.{Result, ok, err}
use vk_turn_proxy_go.Catalog.Types.{CatalogSnapshot}
use vk_turn_proxy_go.Catalog.Clone.{clone_snapshot, clone_snapshot_id}
use vk_turn_proxy_go.Catalog.Library.{Library}
use vk_turn_proxy_go.Catalog.Validation.{ValidationResult, valid_result}
use vk_turn_proxy_go.Catalog.Validation.Snapshot.{validate_snapshot}
use vk_turn_proxy_go.Catalog.Validation.Laws.{validate_snapshot_iff}
use vk_turn_proxy_go.ClientControl.VpsCatalogs.{
  EndpointConfig, CatalogStatus, CachedCatalog, Catalogs, generation_key, generation_or_zero,
  highest_of, raise, store_status, Fetched, request_error, transport_error, undecodable, bad_status,
  fetched, status_from_snapshot, options_for, conclude, validate_endpoint, sync_valid, sync_catalog,
  Sync, run_syncs,
}

-- The highest generation under a key, after a change of the map.
raise_le :
    (key k : String) (o : Option CatalogSnapshot) (c : Catalogs)
    → highest_of k c ≤ generation_or_zero (lookup k (raise key o c))
unfolding highest_of
raise_le key k none c = omega arith
raise_le key k (some s) c =
    if_intro (λ m. highest_of k c ≤ generation_or_zero (lookup k m))
      (ltb (highest_of key c) s.generation) _ _ (λ l. raised l) (λ _. omega arith)
  where
    raised :
        ltb (highest_of key c) s.generation ≡ true
        → highest_of k c ≤ generation_or_zero (lookup k (insert key s.generation c.highest))
    raised l = elim (Bool-cases (str_eq key k)) [
      | inl e ↦
          let same : key ≡ k = (eq_iff key k).0 e in
          rw (lookup-insert key k s.generation c.highest, e)
            (let q = subst (λ j. ltb (highest_of j c) s.generation ≡ true) same l in ground arith)
      | inr e ↦ rw (lookup-insert key k s.generation c.highest, e) (omega arith)
    ]

store_status_le :
    (k : String) (e : EndpointConfig) (status : CatalogStatus) (o : Option CatalogSnapshot)
    (c : Catalogs)
    → highest_of k c ≤ highest_of k (store_status e status o c)
unfolding store_status
store_status_le k e status o c = raise_le (generation_key e) k o c

raise_self :
    (key : String) (s : CatalogSnapshot) (c : Catalogs)
    → highest_of key c ≤ s.generation
    → generation_or_zero (lookup key (raise key (some s) c)) ≡ s.generation
unfolding highest_of
raise_self key s c h =
    if_intro (λ m. generation_or_zero (lookup key m) ≡ s.generation)
      (ltb (highest_of key c) s.generation) _ _
      (λ _. rw (lookup-insert key key s.generation c.highest, (eq_iff key key).1 refl) refl)
      (λ l. ground (arith, l, h))

conclude_le :
    (k : String) (r : Result ValidationResult (Unit {0})) (e : EndpointConfig) (s : CatalogSnapshot)
    (now : ℕ) (c : Catalogs)
    → highest_of k c ≤ highest_of k (conclude r e s now c).kept
conclude_le k (err r) e s now c = store_status_le k e (status_from_snapshot e s now r) none c
conclude_le k (ok u) e s now c =
    store_status_le k e (status_from_snapshot e s now valid_result) (some s) c

conclude-ok :
    (r : Result ValidationResult (Unit {0})) (e : EndpointConfig) (s : CatalogSnapshot) (now : ℕ)
    (c : Catalogs)
    → (conclude r e s now c).error ≡ none
    → r ≡ ok tt
conclude-ok (err r) e s now c h = cc
conclude-ok (ok u) e s now c h = refl

module _ (lib : Library) (url_is_valid : String → Bool) where
  sync_valid_le :
      (k : String) (v : Result String (Unit {0})) (f : Fetched) (e : EndpointConfig) (clock now : ℕ)
      (c : Catalogs)
      → highest_of k c ≤ highest_of k (sync_valid lib url_is_valid v f e clock now c).kept
  sync_valid_le k (err m) f e clock now c = store_status_le k e _ none c
  sync_valid_le k (ok u) (request_error m) e clock now c = store_status_le k e _ none c
  sync_valid_le k (ok u) (transport_error m) e clock now c = store_status_le k e _ none c
  sync_valid_le k (ok u) (bad_status n) e clock now c = store_status_le k e _ none c
  sync_valid_le k (ok u) (undecodable m) e clock now c = store_status_le k e _ none c
  sync_valid_le k (ok u) (fetched s) e clock now c =
      conclude_le k (validate_snapshot lib clock s (options_for e now c)) e s now c

  run_syncs_le :
      (k : String) (xs : List Sync) (c : Catalogs)
      → highest_of k c ≤ highest_of k (run_syncs lib url_is_valid xs c)
  unfolding run_syncs sync_catalog
  run_syncs_le k [] c = omega arith
  run_syncs_le k (x ∷ xs) c =
      let t = sync_catalog lib url_is_valid x.endpoint x.answer x.clock x.now c in
      omega (
        arith,
        sync_valid_le k (validate_endpoint lib url_is_valid x.endpoint) x.answer x.endpoint x.clock
            x.now c,
        run_syncs_le k xs t.kept,
      )

  -- What a sync without an error leaves.
  abbrev pub IsAccepted : EndpointConfig → CatalogSnapshot → Catalogs → Catalogs → Type 0
  IsAccepted e s before after =
      (highest_of (generation_key e) before ≤ s.generation)
      × (highest_of (generation_key e) after ≡ s.generation)
      × ((m : CachedCatalog) × (lookup e.id after.cache ≡ some m) × (m.snapshot ≡ s))

  conclude-IsAccepted :
      (r : Result ValidationResult (Unit {0})) (e : EndpointConfig) (s : CatalogSnapshot)
      (clock now : ℕ) (c : Catalogs)
      → r ≡ ok tt
      → highest_of (generation_key e) c ≤ s.generation
      → IsAccepted e s c (conclude r e s now c).kept
  unfolding store_status
  conclude-IsAccepted (err r) e s clock now c q h = cc
  conclude-IsAccepted (ok u) e s clock now c q h =
      let m : CachedCatalog = record {
        endpoint = e;
        snapshot = clone_snapshot s;
        status = status_from_snapshot e s now valid_result;
      } in
      (
        h,
        raise_self (generation_key e) s c h,
        (
          m,
          lookup-insert e.id e.id m c.cache ∙ rw ((eq_iff e.id e.id).1 refl) refl,
          clone_snapshot_id s,
        ),
      )

  sync_valid-IsAccepted :
      (v : Result String (Unit {0})) (e : EndpointConfig) (s : CatalogSnapshot) (clock now : ℕ)
      (c : Catalogs)
      → (sync_valid lib url_is_valid v (fetched s) e clock now c).error ≡ none
      → IsAccepted e s c (sync_valid lib url_is_valid v (fetched s) e clock now c).kept
  sync_valid-IsAccepted (err m) e s clock now c h = cc
  sync_valid-IsAccepted (ok u) e s clock now c h =
      let r = validate_snapshot lib clock s (options_for e now c) in
      let q = conclude-ok r e s now c h in
      let a = (validate_snapshot_iff lib clock s (options_for e now c)).0 q in
      conclude-IsAccepted r e s clock now c q a.1.1.1.1.0.1

  -- What is kept after a sync that is answered by a catalog, and any syncs.
  abbrev pub between :
      EndpointConfig → CatalogSnapshot → (clock now : ℕ) → List Sync → Catalogs → Catalogs
  between e s clock now xs c =
      run_syncs lib url_is_valid xs (sync_catalog lib url_is_valid e (fetched s) clock now c).kept

  -- Once a sync of an endpoint has accepted a catalog, then after any syncs, of any endpoints and with
  -- any answers, no sync of it, with no other between its own steps, accepts a catalog of a lower
  -- generation; the one that it accepts is kept, and is the highest then.
  pub sync_catalog-run_syncs :
      (e : EndpointConfig) (s t : CatalogSnapshot) (clock now later_clock later : ℕ)
      (xs : List Sync) (c : Catalogs)
      → (sync_catalog lib url_is_valid e (fetched s) clock now c).error ≡ none
      → (sync_catalog lib url_is_valid e
          (fetched t)
          later_clock
          later
          (between e s clock now xs c)).error
        ≡ none
      → (s.generation ≤ t.generation)
        × IsAccepted e t
            (between e s clock now xs c)
            (sync_catalog lib url_is_valid e
              (fetched t)
              later_clock
              later
              (between e s clock now xs c)).kept
  unfolding sync_catalog
  sync_catalog-run_syncs e s t clock now later_clock later xs c h k =
      let v = validate_endpoint lib url_is_valid e in
      let first = sync_valid-IsAccepted v e s clock now c h in
      let last = sync_valid-IsAccepted v e t later_clock later (between e s clock now xs c) k in
      let kept =
        run_syncs_le (generation_key e) xs
          (sync_catalog lib url_is_valid e (fetched s) clock now c).kept in
      (omega (arith, first.1, kept, last.0), last)
