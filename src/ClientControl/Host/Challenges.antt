-- ===== src/ClientControl/Host/Challenges.antt =====
-- pkg/clientcontrol/host.go: the challenges of a session or of a resolution, from the broker that asks
-- to the client that answers.
use Prim.Native.String.{String}
use text.Mathlib.Text.{◌==◌ as str_eq}
use vk_turn_proxy_go.Base.{
  ℕ, ◌+◌, Bool, true, not, List, [], ◌∷◌, Option, none, some, if◌then◌else◌,
}
use vk_turn_proxy_go.Base.TextDict.{lookup, insert, modify}
use vk_turn_proxy_go.ClientControl.Types.{
  SessionState, no_state, starting, challenge_required, EventType, event_challenge_required,
  event_challenge_updated, Session, Challenge, ChallengeStatus, challenge_continuing,
  challenge_completed, challenge_cancelled, challenge_failed, Event, ResolutionState,
  no_resolution_state, resolution_starting, owned_browser_observed,
}
use vk_turn_proxy_go.ClientControl.Host.{
  ActionKind, continue_kind, cancel_kind, ChallengeAction, Host, ManagedSession, ManagedResolution,
  append_with_limit, log_event, publish_event,
}
use vk_turn_proxy_go.ClientControl.Host.Records.{bare_event}

abbrev pub replace_challenge : List Challenge → Challenge → List Challenge
replace_challenge [] update = update ∷ []
replace_challenge (c ∷ cs) update =
    let rest = replace_challenge cs update in
    if str_eq c.id update.id then update ∷ cs else c ∷ rest

-- The event of a challenge.
abbrev pub challenge_event :
    String → ℕ → EventType → SessionState → ResolutionState → String → Challenge → Event
challenge_event id now type state resolution_state message c =
    record (bare_event id c.session_id now type state "") {
      resolution_id = c.resolution_id;
      resolution_state = resolution_state;
      message = message;
      challenge = some c;
    }

abbrev pub required_event : String → String → Challenge → Event
required_event id session_id c =
    record (bare_event id session_id c.created_at event_challenge_required challenge_required "") {
      challenge = some c;
    }

abbrev pub record_managed_challenge :
    (id session_id : String) → ℕ → Challenge → ManagedSession → ManagedSession
record_managed_challenge id session_id limit c m =
    log_event limit (required_event id session_id c) (record m {
      snapshot = record m.snapshot {
        state = challenge_required;
        active_challenge_id = c.id;
        updated_at = c.updated_at;
      };
      challenges = append_with_limit m.challenges c limit;
    })

-- The locked part of `recordChallenge`, of a session that there is.
unfoldable pub record_challenge_locked : (id session_id : String) → Challenge → Host → Host
unfolding insert modify
record_challenge_locked id session_id c h = record h {
  ids = h.ids + 1;
  sessions =
      modify session_id (record_managed_challenge id session_id h.history_limit c) h.sessions;
  challenges = insert c.id (record { snapshot = c; action = none }) h.challenges;
}

abbrev pub completed_state : ChallengeStatus → SessionState → SessionState
completed_state challenge_completed state = starting
completed_state status state = state

abbrev pub complete_snapshot : ChallengeStatus → Challenge → Session → Session
complete_snapshot status c s = record s {
  active_challenge_id = "";
  state = completed_state status s.state;
  updated_at = c.updated_at;
}

abbrev pub complete_managed :
    String → ℕ → ChallengeStatus → String → Challenge → ManagedSession → ManagedSession
complete_managed id limit status message c m =
    log_event limit
      (challenge_event id c.updated_at event_challenge_updated
        (completed_state status m.snapshot.state) no_resolution_state message c)
      (record m {
        snapshot = complete_snapshot status c m.snapshot;
        challenges = replace_challenge m.challenges c;
      })

abbrev pub completed_resolution_state : ChallengeStatus → ResolutionState → ResolutionState
completed_resolution_state challenge_completed state = resolution_starting
completed_resolution_state status state = state

abbrev pub complete_resolution : ChallengeStatus → Challenge → ManagedResolution → ManagedResolution
complete_resolution status c m = record m {
  snapshot = record m.snapshot {
    active_challenge_id = "";
    state = completed_resolution_state status m.snapshot.state;
    updated_at = c.updated_at;
  };
  challenges = replace_challenge m.challenges c;
}

abbrev pub state_of : Option ManagedSession → SessionState
state_of none = no_state
state_of (some m) = m.snapshot.state

abbrev pub resolution_state_of : Option ManagedResolution → ResolutionState
resolution_state_of none = no_resolution_state
resolution_state_of (some m) = m.snapshot.state

-- An identifier is drawn for the event of a session that there is.
abbrev pub drawn : Option ManagedSession → ℕ
drawn none = 0
drawn (some m) = 1

-- The locked part of `completeChallenge`, of a challenge whose new snapshot is given.
unfoldable pub complete_locked :
    (id key : String) → ChallengeStatus → String → Challenge → Host → Host
unfolding lookup modify
complete_locked id key status message c h = record h {
  ids = h.ids + drawn (lookup c.session_id h.sessions);
  challenges = modify key (λ m. record m { snapshot = c }) h.challenges;
  sessions = modify c.session_id (complete_managed id h.history_limit status message c) h.sessions;
  resolutions = modify c.resolution_id (complete_resolution status c) h.resolutions;
}

-- `validateChallengeContinuationRequest` gives no error.
unfoldable pub is_acceptable : Challenge → ChallengeAction → Bool
is_acceptable c a = elim a.kind [
  | cancel_kind ↦ true
  | continue_kind ↦
      if str_eq c.completion_mode owned_browser_observed then a.continuation else not a.continuation
]

-- The channel keeps the action that it holds.
abbrev pub offer_action : ChallengeAction → Option ChallengeAction → Option ChallengeAction
offer_action a none = some a
offer_action a (some b) = some b

-- The first locked part of `signalChallenge`.
unfoldable pub signal_locked : String → Challenge → Host → Host
unfolding modify
signal_locked key c h = record h {
  challenges = modify key (λ m. record m { snapshot = c }) h.challenges;
  sessions =
      modify c.session_id (λ m. record m { challenges = replace_challenge m.challenges c })
        h.sessions;
  resolutions =
      modify c.resolution_id (λ m. record m { challenges = replace_challenge m.challenges c })
        h.resolutions;
}

-- The send of the action.
unfoldable pub signal_send : String → ChallengeAction → Host → Host
unfolding modify
signal_send id a h = record h {
  challenges = modify id (λ m. record m { action = offer_action a m.action }) h.challenges;
}

-- The second locked part.
unfoldable pub signal_log : Challenge → Event → Host → Host
unfolding modify
signal_log c e h = record h {
  sessions = modify c.session_id (log_event h.history_limit e) h.sessions;
  resolutions =
      modify c.resolution_id
        (λ m. record m { events = append_with_limit m.events e h.history_limit }) h.resolutions;
}

pub data SignalReply : Type 0 where
  challenge_not_found not_acceptable : SignalReply
  signalled : Challenge → SignalReply

-- What `waitChallengeAction` returns.
pub data Waited : Type 0 where
  aborted : (message : String) → Waited
  acted : ActionKind → Waited

abbrev pub status_of_action : ActionKind → ChallengeStatus
status_of_action continue_kind = challenge_continuing
status_of_action cancel_kind = challenge_cancelled

module _ (new_id : ℕ → String) where
  unfoldable pub record_challenge : String → Challenge → Host → Host
  unfolding lookup record_challenge_locked publish_event
  record_challenge session_id c h =
      let t = record_challenge_locked (new_id h.ids) session_id c h in
      elim (lookup session_id h.sessions) [
        | none ↦ h
        | some m ↦
            publish_event new_id (required_event (new_id t.ids) session_id c)
              (record t { ids = t.ids + 1 })
      ]

  unfoldable pub complete_challenge : String → ChallengeStatus → String → ℕ → Host → Host
  unfolding lookup complete_locked publish_event
  complete_challenge id status message now h = elim (lookup id h.challenges) [
    | none ↦ h
    | some m ↦
        let c : Challenge = record m.snapshot { status = status; updated_at = now } in
        let t = complete_locked (new_id h.ids) id status message c h in
        publish_event new_id
          (challenge_event (new_id t.ids) c.updated_at event_challenge_updated
            (state_of (lookup c.session_id t.sessions))
            (resolution_state_of (lookup c.resolution_id t.resolutions)) message c)
          (record t { ids = t.ids + 1 })
  ]

  -- The answer of a client, by `ContinueChallenge` or `CancelChallenge`.
  unfoldable pub signal_challenge : String → ChallengeAction → ℕ → Host → SignalReply × Host
  unfolding lookup signal_locked signal_send signal_log is_acceptable publish_event
  signal_challenge id a now h = elim (lookup id h.challenges) [
    | none ↦ (challenge_not_found, h)
    | some m ↦
        let c : Challenge = record m.snapshot {
          status = status_of_action a.kind;
          updated_at = now;
        } in
        let t = signal_send id a (signal_locked id c h) in
        let e =
          challenge_event (new_id t.ids) now event_challenge_updated
            (state_of (lookup c.session_id h.sessions))
            (resolution_state_of (lookup c.resolution_id h.resolutions)) "" c in
        if is_acceptable m.snapshot a
        then (signalled c, publish_event new_id e (signal_log c e (record t { ids = t.ids + 1 })))
        else (not_acceptable, h)
  ]

  -- How `challengeBroker.Handle` ends, once its context is done or the client has acted.
  unfoldable pub end_wait : String → Waited → ℕ → Host → Host
  unfolding complete_challenge
  end_wait id (aborted message) now h = complete_challenge id challenge_failed message now h
  end_wait id (acted continue_kind) now h =
      complete_challenge id challenge_completed "continued" now h
  end_wait id (acted cancel_kind) now h =
      complete_challenge id challenge_cancelled "cancelled" now h
