-- ===== src/ClientControl/Host/Starts.antt =====
-- How a session begins.
use Prim.Native.String.{String}
use text.Mathlib.Text.{◌==◌ as str_eq}
use text.Mathlib.TextEquality.{eq_iff}
use vk_turn_proxy_go.Base.{
  ℕ, ◌≡◌, refl, sym, ap, subst, ◌∙◌, false, List, [], ◌∷◌, Option, none, some, if_intro, take,
}
use vk_turn_proxy_go.Base.Text.{is_empty, trim_space}
use vk_turn_proxy_go.Base.TextDict.{lookup, insert, lookup-insert}
use vk_turn_proxy_go.ClientControl.Types.{Session, starting, session_starting}
use vk_turn_proxy_go.ClientControl.Host.{ManagedSession, Host, snapshot_event}
use vk_turn_proxy_go.ClientControl.Host.Sessions.{
  unless_known, allocate_among, allocate_session_id, fresh_session, start_locked, start_allocated,
  start_session,
}
use vk_turn_proxy_go.ClientControl.Host.Endings.{publish_event-sessions}

-- What is allocated is an identifier that no session has.
abbrev IsFree : List (String × ManagedSession) → Option String → Type 0
IsFree sessions none = Unit
IsFree sessions (some id) = (is_empty id ≡ false) × (lookup id sessions ≡ none)

unless_known-IsFree :
    (o : Option ManagedSession) (sessions : List (String × ManagedSession)) (id : String)
    (rest : Option String)
    → is_empty id ≡ false
    → lookup id sessions ≡ o
    → IsFree sessions rest
    → IsFree sessions (unless_known o id rest)
unless_known-IsFree none sessions id rest e l h = (e, l)
unless_known-IsFree (some m) sessions id rest e l h = h

allocate_among-IsFree :
    (answers : List String) (sessions : List (String × ManagedSession))
    → IsFree sessions (allocate_among answers sessions)
unfolding allocate_among
allocate_among-IsFree [] sessions = tt
allocate_among-IsFree (a ∷ answers) sessions =
    let h = allocate_among-IsFree answers sessions in
    if_intro (IsFree sessions) (is_empty (trim_space a)) _ _ (λ e. h)
      (λ e. unless_known-IsFree (lookup (trim_space a) sessions) sessions (trim_space a) _ e refl h)

module _ (new_id : ℕ → String) where
  start_allocated-IsFree :
      (o : Option String) (p n source : String) (now : ℕ) (h t : Host) (s : Session) (j : String)
      → IsFree h.sessions o
      → start_allocated new_id o p n source now h ≡ (some s, t)
      → str_eq s.id j ≡ false
      → (is_empty s.id ≡ false)
        × (lookup s.id h.sessions ≡ none)
        × (s.state ≡ starting)
        × (lookup s.id t.sessions ≡ some (fresh_session s.id p n source now h.history_limit))
        × (lookup j t.sessions ≡ lookup j h.sessions)
  unfolding fresh_session start_locked
  start_allocated-IsFree none p n source now h t s j f e d =
      let q = ap (λ (x : Option Session × Host). x.0) e in cc
  start_allocated-IsFree (some id) p n source now h t s j f e d =
      let m = fresh_session id p n source now h.history_limit in
      let same : m.snapshot ≡ s = cc (ap (λ (x : Option Session × Host). x.0) e) in
      let ids : id ≡ s.id = ap (λ (x : Session). x.id) same in
      let kept = ap (λ (x : Host). x.sessions) (ap (λ (x : Option Session × Host). x.1) e) in
      let stored =
        sym (
          publish_event-sessions new_id (snapshot_event m.snapshot session_starting "" "")
            (start_locked id p n source now h))
        ∙ kept in
      let sessions : t.sessions ≡ insert id m h.sessions = sym stored in
      let other : str_eq id j ≡ false = subst (λ i. str_eq i j ≡ false) (sym ids) d in
      let here : lookup id t.sessions ≡ some m =
        ap (lookup id) sessions
        ∙ (lookup-insert id id m h.sessions ∙ rw ((eq_iff id id).1 refl) refl) in
      (
        subst (λ i. is_empty i ≡ false) ids f.0,
        subst (λ i. lookup i h.sessions ≡ none) ids f.1,
        sym (ap (λ (x : Session). x.state) same),
        subst (λ i. lookup i t.sessions ≡ some (fresh_session i p n source now h.history_limit)) ids
            here,
        ap (lookup j) sessions ∙ (lookup-insert id j m h.sessions ∙ rw other refl),
      )

  -- Where StartSession begins a session, and no other step comes between its own, its identifier is
  -- not empty and no session had it; the session is starting, the host has it under this identifier
  -- as it was made, and has every other session as before.
  pub start_session-fresh_session :
      (answers : List String) (p n source : String) (now : ℕ) (h t : Host) (s : Session)
      (j : String)
      → start_session new_id answers p n source now h ≡ (some s, t)
      → str_eq s.id j ≡ false
      → (is_empty s.id ≡ false)
        × (lookup s.id h.sessions ≡ none)
        × (s.state ≡ starting)
        × (lookup s.id t.sessions ≡ some (fresh_session s.id p n source now h.history_limit))
        × (lookup j t.sessions ≡ lookup j h.sessions)
  unfolding start_session allocate_session_id
  start_session-fresh_session answers p n source now h t s j e d =
      start_allocated-IsFree (allocate_session_id answers h) p n source now h t s j
        (allocate_among-IsFree (take 8 answers) h.sessions) e d
