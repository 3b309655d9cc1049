-- ===== src/ClientControl/Host/Resolutions/Exports.antt =====
-- What a resolution is exported from.
use Prim.Native.String.{String}
use vk_turn_proxy_go.Base.{
  ℕ, ◌<◌, ◌≡◌, refl, sym, subst, ap, true, false, not, Option, none, some, if_intro, ltb, arith,
  ◌⊎◌, inl, inr,
}
use vk_turn_proxy_go.Base.Text.{is_blank, is_empty}
use vk_turn_proxy_go.Base.TextDict.{lookup}
use vk_turn_proxy_go.Base.Result.{Result, ok, ok-injective}
use vk_turn_proxy_go.ClientControl.Artifacts.{export_handoff}
use vk_turn_proxy_go.ClientControl.Artifacts.Contract.{Library, format_link}
use vk_turn_proxy_go.ClientControl.Types.{
  ResolutionState, no_resolution_state, resolution_starting, resolution_challenge_required,
  resolution_resolved, resolution_failed, resolution_cancelled, resolution_expired, Resolution,
}
use vk_turn_proxy_go.ClientControl.Host.{Host, ManagedResolution}
use vk_turn_proxy_go.ClientControl.Host.Resolutions.{
  is_resolved, is_expiring, has_ended, expire_resolution,
}
use vk_turn_proxy_go.ClientControl.Host.Resolutions.Export.{
  ExportResult, ActionError, is_expired, supports_action, for_action, export_until, export_of,
  export_found, export_resolution,
}

-- The resolution is resolved, offers the action, and its export has not ended.
abbrev pub IsOpen : String → ℕ → Resolution → Type 0
IsOpen action now s =
    (s.state ≡ resolution_resolved)
    × (supports_action s.artifact action ≡ true)
    × (has_ended s.export.expires_at now ≡ false)

state_of-is_resolved : (x : ResolutionState) → is_resolved x ≡ true → x ≡ resolution_resolved
state_of-is_resolved resolution_resolved h = refl
state_of-is_resolved no_resolution_state h = cc
state_of-is_resolved resolution_starting h = cc
state_of-is_resolved resolution_challenge_required h = cc
state_of-is_resolved resolution_failed h = cc
state_of-is_resolved resolution_cancelled h = cc
state_of-is_resolved resolution_expired h = cc

module _ {ℓ} {A : Type ℓ} (action : String) (a : A) (s : Resolution)
    (r : Result ActionError A) where
  -- Where the answer is `a`, the gate was open and the action gave it.
  abbrev Passed : Result ActionError A → Type ℓ
  Passed x =
      x ≡ ok a
      → (s.state ≡ resolution_resolved) × (supports_action s.artifact action ≡ true) × (r ≡ ok a)

  for_action-Passed : Passed (for_action action s r)
  unfolding for_action
  for_action-Passed =
      if_intro Passed (is_expired s.state) _ _ (λ _ h. cc)
        (λ _.
          if_intro Passed (is_resolved s.state) _ _
            (λ q.
              if_intro Passed (supports_action s.artifact action) _ _
                (λ p h. (state_of-is_resolved s.state q, p, h)) (λ _ h. cc))
            (λ _ h. cc))

abbrev ExpiresOr : ℕ → ManagedResolution → ManagedResolution → Type 0
ExpiresOr now m n =
    (n.snapshot.state ≡ resolution_expired) ⊎ ((is_expiring now m.snapshot ≡ false) × (n ≡ m))

expire_resolution-ExpiresOr :
    (now limit : ℕ) (m : ManagedResolution) → ExpiresOr now m (expire_resolution now limit m)
unfolding expire_resolution
expire_resolution-ExpiresOr now limit m =
    if_intro (ExpiresOr now m) (is_expiring now m.snapshot) _ _ (λ _. inl refl) (λ e. inr (e, refl))

-- An action on a resolution after the look at its export.
pub for_action-IsOpen {ℓ} :
    {A : Type ℓ} (action : String) (a : A) (now limit : ℕ) (m : ManagedResolution)
    (r : Result ActionError A)
    → for_action action (expire_resolution now limit m).snapshot r ≡ ok a
    → IsOpen action now m.snapshot × (expire_resolution now limit m ≡ m) × (r ≡ ok a)
for_action-IsOpen action a now limit m r h =
    let n = expire_resolution now limit m in
    let (x, y, z) = for_action-Passed action a n.snapshot r h in
    elim (expire_resolution-ExpiresOr now limit m) [
      | inl e ↦ let q = rw e at x in cc
      | inr (e, same) ↦
          let x1 =
            subst (λ (k : ManagedResolution). k.snapshot.state ≡ resolution_resolved) same x in
          let y1 =
            subst (λ (k : ManagedResolution). supports_action k.snapshot.artifact action ≡ true)
              same y in
          ((x1, y1, not_ended x1 e), same, z)
    ]
  where
    not_ended :
        m.snapshot.state ≡ resolution_resolved
        → is_expiring now m.snapshot ≡ false
        → has_ended m.snapshot.export.expires_at now ≡ false
    not_ended x e = let q = rw x at e in q

-- The link of the remote side, or else the one that is made of the credentials.
abbrev pub IsLink : (payload link told : String) → Type 0
IsLink payload link told =
    ((is_blank payload ≡ false) × (told ≡ payload))
    ⊎ ((is_blank payload ≡ true) × (is_empty link ≡ false) × (told ≡ link))

abbrev pub Exported : Option ℕ → (payload link : String) → Resolution → ExportResult → Type 0
Exported until payload link s x =
    (until ≡ some x.expires_at) × (s.export.supported ≡ true) × IsLink payload link x.link

abbrev GivesOnly :
    Option ℕ
    → (payload link : String) → Resolution
    → ExportResult
    → Result ActionError ExportResult
    → Type 0
GivesOnly until payload link s x r = r ≡ ok x → Exported until payload link s x

export_until-Exported :
    (until : Option ℕ) (payload link : String) (s : Resolution) (x : ExportResult)
    → GivesOnly until payload link s x (export_until until payload link s)
export_until-Exported none payload link s x = λ h. cc
export_until-Exported (some u) payload link s x =
    let P = GivesOnly (some u) payload link s x in
    if_intro P s.export.supported _ _
      (λ e.
        if_intro P (is_blank payload) _ _
          (λ b.
            if_intro P (is_empty link) _ _ (λ _ h. cc)
              (λ f h. (
                ap (λ (y : ExportResult). some y.expires_at) (ok-injective h),
                e,
                inr (b, f, sym (ap (λ (y : ExportResult). y.link) (ok-injective h))),
              )))
          (λ b h. (
            ap (λ (y : ExportResult). some y.expires_at) (ok-injective h),
            e,
            inl (b, sym (ap (λ (y : ExportResult). y.link) (ok-injective h))),
          )))
      (λ _ h. cc)

lt_of-has_ended : (o : Option ℕ) (now t : ℕ) → o ≡ some t → has_ended o now ≡ false → now < t
lt_of-has_ended none now t e h = cc
lt_of-has_ended (some u) now t e h =
    let same : u ≡ t = cc e in ground (arith, subst (λ k. not (ltb now k) ≡ false) same h)

module _ (lib : Library) (new_id : ℕ → String) where
  abbrev pub ExportedFrom : ManagedResolution → ℕ → ExportResult → Type 0
  ExportedFrom m now x =
      IsOpen export_handoff now m.snapshot
      × (now < x.expires_at)
      × Exported m.snapshot.export.expires_at m.remote_export_payload
          (format_link lib m.secret.credentials) m.snapshot x

  export_of-ExportedFrom :
      (now limit : ℕ) (m : ManagedResolution) (x : ExportResult)
      → export_of lib (expire_resolution now limit m) ≡ ok x
      → ExportedFrom m now x
  unfolding export_of
  export_of-ExportedFrom now limit m x h =
      let answer : ManagedResolution → Result ActionError ExportResult = λ k.
        export_until k.snapshot.export.expires_at k.remote_export_payload
          (format_link lib k.secret.credentials) k.snapshot in
      let (gate, same, got) =
        for_action-IsOpen export_handoff x now limit m (answer (expire_resolution now limit m)) h in
      let e =
        export_until-Exported m.snapshot.export.expires_at m.remote_export_payload
          (format_link lib m.secret.credentials) m.snapshot x
          (subst (λ (k : ManagedResolution). answer k ≡ ok x) same got) in
      (gate, lt_of-has_ended m.snapshot.export.expires_at now x.expires_at e.0 gate.2, e)

  export_found-ExportedFrom :
      (o : Option ManagedResolution) (id : String) (now : ℕ) (h : Host) (x : ExportResult)
      → (export_found lib new_id o id now h).0 ≡ ok x
      → (m : ManagedResolution) × (o ≡ some m) × ExportedFrom m now x
  export_found-ExportedFrom none id now h x e = cc
  export_found-ExportedFrom (some m) id now h x e =
      (m, refl, export_of-ExportedFrom now h.history_limit m x e)

  -- Where ExportResolution gives a link, the host has the resolution, it is resolved and offers the
  -- export, the export is supported and ends later than now, at the instant that is told; the link is
  -- the payload of the remote side, or, where this is blank, the one made of the credentials.
  pub export_resolution-ExportedFrom :
      (id : String) (now : ℕ) (h : Host) (x : ExportResult)
      → (export_resolution lib new_id id now h).0 ≡ ok x
      → (m : ManagedResolution) × (lookup id h.resolutions ≡ some m) × ExportedFrom m now x
  unfolding export_resolution
  export_resolution-ExportedFrom id now h x e =
      export_found-ExportedFrom (lookup id h.resolutions) id now h x e
