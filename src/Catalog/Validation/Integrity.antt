-- ===== src/Catalog/Validation/Integrity.antt =====
-- A snapshot with integrity metadata is accepted as signed.
use Prim.Native.String.{String, ◌++◌, slice, len}
use vk_turn_proxy_go.Base.{
  ℕ, ◌≡◌, refl, sym, subst, true, false, Option, none, some, Bool-cases, ltb, inl, inr, All,
}
use vk_turn_proxy_go.Base.Text.{trim_space, HasText, HasText-append, is_space}
use vk_turn_proxy_go.Base.Result.{ok}
use vk_turn_proxy_go.Catalog.Types.{
  CatalogSnapshot, SnapshotIntegrity, integrity_mode_signed_snapshot_v1,
}
use vk_turn_proxy_go.Catalog.Clone.{clone_snapshot, clone_snapshot_id}
use vk_turn_proxy_go.Catalog.Library.{Library}
use vk_turn_proxy_go.Catalog.Validation.{
  ValidationOptions, digest_of, snapshot_digest, attach_integrity,
}
use vk_turn_proxy_go.Catalog.Validation.Snapshot.{validate_snapshot}
use vk_turn_proxy_go.Catalog.Validation.Laws.{
  IsAcceptedSnapshot, IsSourceShape, validate_snapshot_iff,
}

module _ (lib : Library) where
  -- The digest does not see the metadata.
  digest_blind :
      (s : CatalogSnapshot) (i : SnapshotIntegrity)
      → snapshot_digest lib (record s { integrity = i }) ≡ snapshot_digest lib s
  unfolding snapshot_digest clone_snapshot
  digest_blind s i = refl

  digest-HasText :
      ((body : String) → HasText (lib.sha256_hex 32 body))
      → (body : Option String) → ltb (len (digest_of lib body)) 16 ≡ false
      → HasText (digest_of lib body)
  digest-HasText hex none l = cc
  digest-HasText hex (some body) l = hex body

  -- AttachIntegrity makes of an accepted snapshot one that is accepted also where a signature is
  -- required, as long as a SHA-256 sum is not blank in hexadecimal.
  pub validate_snapshot-attach_integrity :
      ((body : String) → HasText (lib.sha256_hex 32 body))
      → (clock : ℕ) (s t : CatalogSnapshot) (signer : String) (opts : ValidationOptions)
      → validate_snapshot lib clock s opts ≡ ok tt
      → attach_integrity lib s signer ≡ some t
      → validate_snapshot lib clock t (record opts { require_signed = true }) ≡ ok tt
  unfolding attach_integrity snapshot_digest clone_snapshot is_space
  validate_snapshot-attach_integrity hex clock s t signer opts v a =
      let d = snapshot_digest lib (clone_snapshot s) in
      let u : CatalogSnapshot = record (clone_snapshot s) {
        integrity = record {
          mode = integrity_mode_signed_snapshot_v1;
          digest = d;
          signature = "signed:" ++ trim_space signer ++ ":" ++ slice d 0 16;
        };
      } in
      let o : ValidationOptions = record opts { require_signed = true } in
      let same : snapshot_digest lib u ≡ d = digest_blind (clone_snapshot s) u.integrity in
      let h = (validate_snapshot_iff lib clock s opts).0 v in
      elim (Bool-cases (ltb (len d) 16)) [
        | inl e ↦ let q = rw e at a in cc
        | inr e ↦
            let q : u ≡ t = cc (rw e at a) in
            let hd = digest-HasText hex _ e in
            let hs = HasText-append "signed:" (trim_space signer ++ ":" ++ slice d 0 16) refl in
            let g : IsAcceptedSnapshot lib clock u o = (
              h.0,
              (
                h.1.0,
                (
                  h.1.1.0,
                  (
                    h.1.1.1.0,
                    (
                      h.1.1.1.1.0,
                      (
                        h.1.1.1.1.1.0,
                        (
                          inr ((refl, (hd, hs)), same),
                          subst (λ (x : CatalogSnapshot). All IsSourceShape x.sources)
                              (sym (clone_snapshot_id s)) h.1.1.1.1.1.1.1,
                        ),
                      ),
                    ),
                  ),
                ),
              ),
            ) in
            subst (λ x. validate_snapshot lib clock x o ≡ ok tt) q
              ((validate_snapshot_iff lib clock u o).1 g)
      ]
