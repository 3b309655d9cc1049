-- ===== src/ClientControl/Host/Endings.antt =====
-- How a session ends, and how it stands once it is stopped.
use Prim.Native.String.{String}
use vk_turn_proxy_go.Base.{ℕ, ◌≡◌, refl, ap, ◌∙◌, true, false, Option, none, some, if_intro}
use vk_turn_proxy_go.Base.Text.{is_empty}
use vk_turn_proxy_go.Base.TextDict.{lookup, modify, lookup-modify_self}
use vk_turn_proxy_go.ClientControl.Types.{Session, Event, session_stopped}
use vk_turn_proxy_go.ClientControl.Host.{
  ManagedSession, Host, snapshot_event, log_event, publish_event,
}
use vk_turn_proxy_go.ClientControl.Host.Sessions.{
  stop_snapshot, stop_managed, StopReply, now_stopping, stop_found, stop_locked, stop_session,
  after_stop, cancel_session, is_final, is_stopped, RunResult, finish_snapshot, finish_locked,
  finish_log, finish_found, finish_session, close_done,
}

module _ (new_id : ℕ → String) where
  pub publish_event-sessions :
      (e : Event) (h : Host) → (publish_event new_id e h).sessions ≡ h.sessions
  unfolding publish_event
  publish_event-sessions e h =
      if_intro (λ (x : Host). x.sessions ≡ h.sessions) (is_empty e.id) _ _ (λ b. refl) (λ b. refl)

  -- The host has a session with this snapshot under the identifier.
  abbrev HasSnapshot : String → Session → Host → Type 0
  HasSnapshot id s h = (m : ManagedSession) × (lookup id h.sessions ≡ some m) × (m.snapshot ≡ s)

  close_done-HasSnapshot :
      (id : String) (s : Session) (h : Host)
      → HasSnapshot id s h
      → (m : ManagedSession) × (lookup id (close_done id h).sessions ≡ some m)
        × (m.done ≡ true)
        × (m.snapshot ≡ s)
  unfolding close_done
  close_done-HasSnapshot id s h (m, e, p) = (
    record m { done = true },
    lookup-modify_self id (λ (m : ManagedSession). record m { done = true }) h.sessions m e,
    refl,
    p,
  )

  finish_log-HasSnapshot :
      (id : String) (m : ManagedSession) (h : Host) (e : Event)
      → lookup id h.sessions ≡ some m
      → HasSnapshot id m.snapshot (publish_event new_id e (finish_log id m.snapshot h))
  unfolding finish_log
  finish_log-HasSnapshot id m h e k =
      let told =
        log_event h.history_limit (snapshot_event m.snapshot session_stopped "" "stopped") in
      (
        told m,
        ap (lookup id) (publish_event-sessions e (finish_log id m.snapshot h))
            ∙ lookup-modify_self id told h.sessions m k,
        refl,
      )

  finish_found-ends :
      (o : Option ManagedSession) (id : String) (before after : Host) (m : ManagedSession)
      → lookup id after.sessions ≡ o
      → o ≡ some m
      → (n : ManagedSession) × (lookup id (finish_found new_id o id before after).sessions ≡ some n)
        × (n.done ≡ true)
        × (n.snapshot ≡ m.snapshot)
  finish_found-ends none id before after m k e = cc
  finish_found-ends (some x) id before after m k e =
      let same : x ≡ m = cc e in
      let (n, l, d, p) = close_done-HasSnapshot id x.snapshot _ (
        if_intro (HasSnapshot id x.snapshot) (is_stopped x.snapshot.state) _ _
          (λ b. finish_log-HasSnapshot id x after _ k) (λ b. (x, k, refl))) in
      (n, l, d, p ∙ ap (λ (y : ManagedSession). y.snapshot) same)

  -- When the run of a session returns, the session is done, with the snapshot of its end.
  pub finish_session-lookup :
      (id : String) (now : ℕ) (r : RunResult) (h : Host) (m : ManagedSession)
      → lookup id h.sessions ≡ some m
      → (n : ManagedSession) × (lookup id (finish_session new_id id now r h).sessions ≡ some n)
        × (n.done ≡ true)
        × (n.snapshot ≡ finish_snapshot now m.stop_requested r m.snapshot)
  unfolding finish_session
  finish_session-lookup id now r h m k =
      let change : ManagedSession → ManagedSession =
        λ m. record m { snapshot = finish_snapshot now m.stop_requested r m.snapshot } in
      let t = finish_locked id now r h in
      finish_found-ends (lookup id t.sessions) id h t (change m) refl
        (lookup-modify_self id change h.sessions m k)

  -- The session as it stands once it is stopped.
  abbrev pub stopped_now : ℕ → ℕ → ManagedSession → ManagedSession
  stopped_now now limit m = record (stop_managed now limit m) { cancelled = true }

  pub stop_session-lookup :
      (id : String) (now : ℕ) (h : Host) (m : ManagedSession)
      → lookup id h.sessions ≡ some m
      → is_empty m.platform_mode ≡ true
      → is_final m.snapshot.state ≡ false
      → ((stop_session new_id id now h).0 ≡ now_stopping (stop_snapshot now m.snapshot))
        × (lookup id (stop_session new_id id now h).1.sessions
            ≡ some (stopped_now now h.history_limit m))
  unfolding stop_session stop_locked cancel_session
  stop_session-lookup id now h m k p f =
      let change = stop_managed now h.history_limit in
      let t : Host = record h { sessions = modify id change h.sessions } in
      let s = stop_snapshot now m.snapshot in
      let e = snapshot_event s session_stopped "" "stopping" in
      let found : stop_locked id now h ≡ (now_stopping s, t) =
        ap (λ o. stop_found o id now h) k ∙ rw (p, f) refl in
      let reached =
        ap (lookup id) (publish_event-sessions e t) ∙ lookup-modify_self id change h.sessions m k in
      let cancelled =
        lookup-modify_self id (λ (m : ManagedSession). record m { cancelled = true })
          (publish_event new_id e t).sessions (change m) reached in
      (
        ap (λ (x : StopReply × Host). x.0) found,
        ap (λ (x : StopReply × Host). lookup id (after_stop new_id id x.0 x.1).sessions) found
            ∙ cancelled,
      )
