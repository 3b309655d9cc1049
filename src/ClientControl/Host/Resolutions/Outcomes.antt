-- ===== src/ClientControl/Host/Resolutions/Outcomes.antt =====
-- How a resolution ends, and that a cancelled one stays so.
use Prim.Native.String.{String}
use vk_turn_proxy_go.Base.{
  ℕ, ◌≡◌, refl, arith, sym, ap, ◌∙◌, subst, true, false, List, Option, some, if◌then◌else◌,
  if_intro, Bool-cases, inl, inr,
}
use vk_turn_proxy_go.Base.Text.{is_empty}
use vk_turn_proxy_go.Base.TextDict.{lookup, modify, lookup-modify_self}
use vk_turn_proxy_go.Base.Result.{Result, ok, err}
use vk_turn_proxy_go.ClientControl.Execution.{PlatformTunnelCapability}
use vk_turn_proxy_go.ClientControl.Artifacts.{ProviderResolution, no_answer}
use vk_turn_proxy_go.ClientControl.Artifacts.Contract.{Library, Contract, resolved_contract}
use vk_turn_proxy_go.ClientControl.Artifacts.Failure.{ResolveError, plain_error}
use vk_turn_proxy_go.ClientControl.Types.{
  ResolutionState, resolution_resolved, resolution_failed, resolution_cancelled, resolution_expired,
  resolution_starting, resolution_challenge_required, no_resolution_state, Resolution, Event,
  event_resolution_cancelled,
}
use vk_turn_proxy_go.ClientControl.Host.{Host, ManagedResolution, publish_event}
use vk_turn_proxy_go.ClientControl.Host.Resolutions.{
  ResolutionReply, resolution_told, has_ended, is_over, cancel_unless_over, cancelled_snapshot,
  cancel_managed, cancel_locked, cancel_resolution_context, cancel_resolution, resolution_event,
}
use vk_turn_proxy_go.ClientControl.Host.Resolutions.Finish.{
  is_closed, is_cancelled, failed_snapshot, fail_managed, fail_locked, fail_found, failure_event,
  finish_failure_of, resolve_managed, resolved_snapshot, succeed_managed, succeed_locked,
  success_by, success_found, finish_success_of, finish_run,
}

publish_event-resolutions :
    (new_id : ℕ → String) (e : Event) (h : Host)
    → (publish_event new_id e h).resolutions ≡ h.resolutions
unfolding publish_event
publish_event-resolutions new_id e h =
    if_intro (λ (x : Host). x.resolutions ≡ h.resolutions) (is_empty e.id) _ _ (λ _. refl)
      (λ _. refl)

-- The state and the secret that a resolution has where the provider's answer is taken.
abbrev pub answered :
    Result String Contract
    → ProviderResolution
    → ℕ
    → ManagedResolution
    → ResolutionState × ProviderResolution
answered (err message) r now m = (resolution_failed, m.secret)
answered (ok c) r now m =
    if has_ended c.export.expires_at now
    then (resolution_expired, no_answer)
    else (resolution_resolved, r)

abbrev pub outcome :
    Library
    → List PlatformTunnelCapability
    → Result ResolveError ProviderResolution
    → ℕ
    → ManagedResolution
    → ResolutionState × ProviderResolution
outcome lib tunnels (err e) now m =
    (if e.was_cancelled then resolution_cancelled else resolution_failed, m.secret)
outcome lib tunnels (ok r) now m =
    answered (resolved_contract lib m.descriptor r now tunnels) r now m

-- The resolution is done, and has this state and secret.
abbrev pub IsDoneWith : ResolutionState × ProviderResolution → ManagedResolution → Type 0
IsDoneWith o n = (n.done ≡ true) × (n.snapshot.state ≡ o.0) × (n.secret ≡ o.1)

abbrev pub EndsWith : String → ResolutionState × ProviderResolution → Host → Type 0
EndsWith id o t = (n : ManagedResolution) × (lookup id t.resolutions ≡ some n) × IsDoneWith o n

failed_snapshot_state :
    (e : ResolveError) (now : ℕ) (s : Resolution)
    → is_cancelled s.state ≡ false
    → (failed_snapshot e now s).state
      ≡ (if e.was_cancelled then resolution_cancelled else resolution_failed)
failed_snapshot_state e now s c = ground (arith, c)

fail_managed-IsDoneWith :
    (e : ResolveError) (now limit : ℕ) (m : ManagedResolution)
    → is_cancelled m.snapshot.state ≡ false
    → m.done ≡ false
    → IsDoneWith
        ((if e.was_cancelled then resolution_cancelled else resolution_failed), m.secret)
        (fail_managed e now limit m)
fail_managed-IsDoneWith e now limit m c d =
    if_intro
      (IsDoneWith ((if e.was_cancelled then resolution_cancelled else resolution_failed), m.secret))
      m.done _ _ (λ q. let x = rw d at q in cc)
      (λ _. (refl, failed_snapshot_state e now m.snapshot c, refl))

resolve_managed-IsDoneWith :
    (r : ProviderResolution) (c : Contract) (now limit : ℕ) (m : ManagedResolution)
    → IsDoneWith (answered (ok c) r now m) (resolve_managed r c now limit m)
unfolding resolved_snapshot
resolve_managed-IsDoneWith r c now limit m = elim (Bool-cases (has_ended c.export.expires_at now)) [
  | inl e ↦ rw e (refl, refl, refl)
  | inr e ↦ rw e (refl, refl, refl)
]

module _ (new_id : ℕ → String) where
  fail_found-resolutions :
      (id : String) (e : ResolveError) (now : ℕ) (h : Host) (m : ManagedResolution)
      → (fail_found new_id (some m) id e now h).resolutions ≡ (fail_locked id e now h).resolutions
  fail_found-resolutions id e now h m =
      if_intro (λ (x : Host). x.resolutions ≡ (fail_locked id e now h).resolutions) m.done _ _
        (λ _. refl)
        (λ _.
          publish_event-resolutions new_id
            (failure_event e m.snapshot.state (failed_snapshot e now m.snapshot))
            (fail_locked id e now h))

  lookup-finish_failure_of :
      (id : String) (e : ResolveError) (now : ℕ) (h : Host) (m : ManagedResolution)
      → lookup id h.resolutions ≡ some m
      → lookup id (finish_failure_of new_id id e now h).resolutions
        ≡ some (fail_managed e now h.history_limit m)
  unfolding finish_failure_of fail_locked
  lookup-finish_failure_of id e now h m l =
      ap (λ (o : Option ManagedResolution). lookup id (fail_found new_id o id e now h).resolutions)
        l
      ∙ (ap (lookup id) (fail_found-resolutions id e now h m)
          ∙ lookup-modify_self id (fail_managed e now h.history_limit) h.resolutions m l)

  finish_failure_of-EndsWith :
      (id : String) (e : ResolveError) (now : ℕ) (h : Host) (m : ManagedResolution)
      → lookup id h.resolutions ≡ some m
      → is_cancelled m.snapshot.state ≡ false
      → m.done ≡ false
      → EndsWith id
          ((if e.was_cancelled then resolution_cancelled else resolution_failed), m.secret)
          (finish_failure_of new_id id e now h)
  finish_failure_of-EndsWith id e now h m l c d = (
    fail_managed e now h.history_limit m,
    lookup-finish_failure_of id e now h m l,
    fail_managed-IsDoneWith e now h.history_limit m c d,
  )

not_cancelled : (x : ResolutionState) → is_closed x ≡ false → is_cancelled x ≡ false
not_cancelled resolution_cancelled h = h
not_cancelled resolution_failed h = cc
not_cancelled resolution_expired h = cc
not_cancelled resolution_resolved h = refl
not_cancelled resolution_starting h = refl
not_cancelled resolution_challenge_required h = refl
not_cancelled no_resolution_state h = refl

module _ (lib : Library) (new_id : ℕ → String) where
  -- The lock is held while the contract is made.
  succeed_managed-resolve_managed :
      (r : ProviderResolution) (now : ℕ) (h : Host) (m : ManagedResolution) (c : Contract)
      → is_closed m.snapshot.state ≡ false
      → resolved_contract lib m.descriptor r now h.platform_tunnels ≡ ok c
      → succeed_managed lib r now h m ≡ resolve_managed r c now h.history_limit m
  unfolding succeed_managed
  succeed_managed-resolve_managed r now h m c open_state e = rw (open_state, e) refl

  success_by-EndsWith :
      (o : Result String Contract) (id : String) (r : ProviderResolution) (now : ℕ) (h : Host)
      (m : ManagedResolution)
      → lookup id h.resolutions ≡ some m
      → is_closed m.snapshot.state ≡ false
      → m.done ≡ false
      → resolved_contract lib m.descriptor r now h.platform_tunnels ≡ o
      → EndsWith id (answered o r now m) (success_by lib new_id o id r now m h)
  unfolding succeed_locked
  success_by-EndsWith (err message) id r now h m l c d e =
      finish_failure_of-EndsWith new_id id (plain_error message) now h m l
        (not_cancelled m.snapshot.state c) d
  success_by-EndsWith (ok k) id r now h m l c d e = (
    resolve_managed r k now h.history_limit m,
    ap (lookup id) (publish_event-resolutions new_id _ (succeed_locked lib id r now h))
        ∙ (lookup-modify_self id (succeed_managed lib r now h) h.resolutions m l
            ∙ ap (λ (n : ManagedResolution). some n)
                (succeed_managed-resolve_managed r now h m k c e)),
    resolve_managed-IsDoneWith r k now h.history_limit m,
  )

  success_found-EndsWith :
      (id : String) (r : ProviderResolution) (now : ℕ) (h : Host) (m : ManagedResolution)
      → lookup id h.resolutions ≡ some m
      → is_closed m.snapshot.state ≡ false
      → m.done ≡ false
      → EndsWith id
          (answered (resolved_contract lib m.descriptor r now h.platform_tunnels) r now m)
          (success_found lib new_id (some m) id r now h)
  success_found-EndsWith id r now h m l c d =
      let o = resolved_contract lib m.descriptor r now h.platform_tunnels in
      if_intro (EndsWith id (answered o r now m)) (is_closed m.snapshot.state) _ _
        (λ q. let x = rw c at q in cc) (λ _. success_by-EndsWith o id r now h m l c d refl)

  -- The run of a resolution that is neither done nor cancelled, failed or expired ends it, whatever the
  -- provider answers and no other step between: it is done; after an error it is cancelled or failed,
  -- as it is failed where the contract of the answer is an error, both with the secret that it had;
  -- else it is resolved with the answer, or, where the export has ended already, expired with none.
  pub finish_run-outcome :
      (id : String) (answer : Result ResolveError ProviderResolution) (now : ℕ) (h : Host)
      (m : ManagedResolution)
      → lookup id h.resolutions ≡ some m
      → is_closed m.snapshot.state ≡ false
      → m.done ≡ false
      → EndsWith id
          (outcome lib h.platform_tunnels answer now m)
          (finish_run lib new_id id answer now h)
  unfolding finish_success_of
  finish_run-outcome id (err e) now h m l c d =
      finish_failure_of-EndsWith new_id id e now h m l (not_cancelled m.snapshot.state c) d
  finish_run-outcome id (ok r) now h m l c d =
      subst
        (λ o.
          EndsWith id
            (answered (resolved_contract lib m.descriptor r now h.platform_tunnels) r now m)
            (success_found lib new_id o id r now h))
        (sym l) (success_found-EndsWith id r now h m l c d)

  abbrev cancelled_managed : ℕ → ℕ → ManagedResolution → ManagedResolution
  cancelled_managed now limit m = record (cancel_managed now limit m) { cancelled = true }

  -- What a cancelled resolution is after the reply, and after a run that ends later.
  abbrev pub StaysCancelled : String → ManagedResolution → ResolutionReply → ℕ → Host → Type 0
  StaysCancelled id m reply now t =
      (c : ManagedResolution) × (reply ≡ resolution_told (cancelled_snapshot now m.snapshot))
      × (lookup id t.resolutions ≡ some c)
      × (c.snapshot ≡ cancelled_snapshot now m.snapshot)
      × (c.done ≡ true)
      × (c.cancelled ≡ true)

  abbrev pub LateRun :
      String → Result ResolveError ProviderResolution → ℕ → ManagedResolution → Host → Type 0
  LateRun id answer later m t =
      (n : ManagedResolution) × (lookup id (finish_run lib new_id id answer later t).resolutions
        ≡ some n)
      × (n.snapshot.state ≡ resolution_cancelled)
      × (n.snapshot.failure ≡ m.snapshot.failure)
      × (n.secret ≡ m.secret)
      × ((finish_run lib new_id id answer later t).published ≡ t.published)

  cancel_unless_over-cancel_managed :
      (now limit : ℕ) (m : ManagedResolution)
      → is_over m.snapshot.state ≡ false
      → cancel_unless_over now limit m ≡ cancel_managed now limit m
  cancel_unless_over-cancel_managed now limit m o = rw o refl

  -- What is done where the resolution is not over.
  abbrev told_and_cancelled : String → ℕ → ManagedResolution → Host → Host
  told_and_cancelled id now m h = cancel_resolution_context id (
      publish_event new_id
        (resolution_event (cancelled_snapshot now m.snapshot) event_resolution_cancelled
          "cancelled")
        (cancel_locked id now h))

  lookup-told_and_cancelled :
      (id : String) (now : ℕ) (h : Host) (m : ManagedResolution)
      → lookup id h.resolutions ≡ some m
      → is_over m.snapshot.state ≡ false
      → lookup id (told_and_cancelled id now m h).resolutions
        ≡ some (cancelled_managed now h.history_limit m)
  unfolding cancel_resolution_context cancel_locked
  lookup-told_and_cancelled id now h m l o =
      let first : lookup id (modify id (cancel_unless_over now h.history_limit) h.resolutions)
          ≡ some (cancel_managed now h.history_limit m) =
        lookup-modify_self id (cancel_unless_over now h.history_limit) h.resolutions m l
        ∙ ap (λ (n : ManagedResolution). some n)
            (cancel_unless_over-cancel_managed now h.history_limit m o) in
      lookup-modify_self id (λ (n : ManagedResolution). record n { cancelled = true }) _ _
        (ap (lookup id) (
            publish_event-resolutions new_id
              (resolution_event (cancelled_snapshot now m.snapshot) event_resolution_cancelled
                "cancelled")
              (cancel_locked id now h))
          ∙ first)

  cancel_resolution-told_and_cancelled :
      (id : String) (now : ℕ) (h : Host) (m : ManagedResolution)
      → lookup id h.resolutions ≡ some m
      → is_over m.snapshot.state ≡ false
      → cancel_resolution new_id id now h
        ≡ (resolution_told (cancelled_snapshot now m.snapshot), told_and_cancelled id now m h)
  unfolding cancel_resolution
  cancel_resolution-told_and_cancelled id now h m l o = rw (l, o) refl

  late_run :
      (id : String) (answer : Result ResolveError ProviderResolution) (now later : ℕ) (h t : Host)
      (m : ManagedResolution)
      → lookup id t.resolutions ≡ some (cancelled_managed now h.history_limit m)
      → LateRun id answer later m t
  unfolding finish_success_of finish_failure_of fail_locked
  late_run id (ok r) now later h t m l =
      let same : success_found lib new_id (lookup id t.resolutions) id r later t ≡ t =
        ap (λ o. success_found lib new_id o id r later t) l in
      (
        cancelled_managed now h.history_limit m,
        ap (λ (x : Host). lookup id x.resolutions) same ∙ l,
        refl,
        refl,
        refl,
        ap (λ (x : Host). x.published) same,
      )
  late_run id (err e) now later h t m l = (
    fail_managed e later t.history_limit (cancelled_managed now h.history_limit m),
    lookup-finish_failure_of new_id id e later t (cancelled_managed now h.history_limit m) l,
    refl,
    refl,
    refl,
    ap (λ (o : Option ManagedResolution). (fail_found new_id o id e later t).published) l,
  )

  -- CancelResolution of a resolution that is not over, with no other step between its own, tells that
  -- it is cancelled, closes done and cancels the context; a run that ends after it, whatever the
  -- provider answers and no other step between, leaves it cancelled, without a failure or a secret
  -- that it had not before, and publishes nothing.
  pub finish_run-cancel_resolution :
      (id : String) (answer : Result ResolveError ProviderResolution) (now later : ℕ) (h : Host)
      (m : ManagedResolution)
      → lookup id h.resolutions ≡ some m
      → is_over m.snapshot.state ≡ false
      → (let (reply, t) = cancel_resolution new_id id now h in
          StaysCancelled id m reply now t × LateRun id answer later m t)
  finish_run-cancel_resolution id answer now later h m l o =
      let c = cancelled_managed now h.history_limit m in
      let t = told_and_cancelled id now m h in
      let found = lookup-told_and_cancelled id now h m l o in
      subst
        (λ (x : ResolutionReply × Host).
          StaysCancelled id m x.0 now x.1 × LateRun id answer later m x.1)
        (sym (cancel_resolution-told_and_cancelled id now h m l o))
        ((c, refl, found, refl, refl, refl), late_run id answer now later h t m found)
