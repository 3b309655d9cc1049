-- ===== src/ClientControl/Host/Records.antt =====
-- pkg/clientcontrol/host.go: handleRuntimeRecord, on the attributes of a record as `stringValue` and
-- `intValue` read them.
use Prim.Native.String.{String}
use text.Mathlib.Text.{◌==◌ as str_eq}
use vk_turn_proxy_go.Base.{
  ℕ, ◌+◌, Bool, true, false, ◌&&◌, List, [], ◌∷◌, Option, none, some, if◌then◌else◌,
}
use vk_turn_proxy_go.Base.Int.{ℤ, pos}
use vk_turn_proxy_go.Base.TextDict.{lookup, modify}
use vk_turn_proxy_go.ClientControl.Types.{
  SessionState, ready, retrying, failed, starting, EventType, session_starting, session_ready,
  session_retrying, session_failed, Session, Event, no_resolution_state, ChallengeStatus,
  challenge_pending, challenge_continuing, challenge_completed,
}
use vk_turn_proxy_go.ClientControl.Host.{
  Host, ManagedSession, ManagedChallenge, log_event, publish_event,
}

pub record RuntimeRecord : Type 0 where
  pub event : String
  pub stage : String
  pub result : String
  pub error_text : String
  pub backoff : String
  pub connections : ℤ
  pub restart : ℤ

-- The events that the host understands.
pub data RecordKind : Type 0 where
  runtime_ready worker_restart_scheduled runtime_failure runtime_startup : RecordKind

unfoldable pub record_kind : String → Option RecordKind
record_kind event =
    if str_eq event "runtime_ready"
    then some runtime_ready
    else if str_eq event "worker_restart_scheduled"
    then some worker_restart_scheduled
    else if str_eq event "runtime_failure"
    then some runtime_failure
    else if str_eq event "runtime_startup"
    then some runtime_startup
    else none

-- What an event makes of the snapshot.
unfoldable pub record_snapshot : RecordKind → RuntimeRecord → ℕ → Session → Session
record_snapshot runtime_ready r now s = record s {
  state = ready;
  updated_at = now;
  active_challenge_id = "";
}
record_snapshot worker_restart_scheduled r now s = record s { state = retrying; updated_at = now }
record_snapshot runtime_failure r now s = record s {
  state = failed;
  updated_at = now;
  stopped_at = some now;
  failure = some (record { stage = r.stage; message = r.error_text; not_implemented = false });
}
record_snapshot runtime_startup r now s = record s { state = starting; updated_at = now }

-- An event of a session, at an instant and in a state, with nothing more.
abbrev pub bare_event : (id session_id : String) → ℕ → EventType → SessionState → String → Event
bare_event id session_id now type state stage = record {
  id = id;
  timestamp = now;
  session_id = session_id;
  resolution_id = "";
  type = type;
  state = state;
  resolution_state = no_resolution_state;
  stage = stage;
  message = "";
  connections = pos 0;
  ready_workers = pos 0;
  restart = pos 0;
  backoff = "";
  challenge = none;
  artifact = none;
}

unfoldable pub record_event : RecordKind → RuntimeRecord → (id session_id : String) → ℕ → Event
record_event runtime_ready r id session_id now =
    record (bare_event id session_id now session_ready ready r.stage) {
      connections = r.connections;
      ready_workers = r.connections;
    }
record_event worker_restart_scheduled r id session_id now =
    record (bare_event id session_id now session_retrying retrying r.stage) {
      message = r.result;
      restart = r.restart;
      backoff = r.backoff;
    }
record_event runtime_failure r id session_id now =
    record (bare_event id session_id now session_failed failed r.stage) { message = r.error_text }
record_event runtime_startup r id session_id now =
    record (bare_event id session_id now session_starting starting r.stage) {
      connections = r.connections;
    }

abbrev pub record_managed :
    RecordKind
    → RuntimeRecord
    → (id session_id : String) → (now limit : ℕ) → ManagedSession
    → ManagedSession
record_managed kind r id session_id now limit m =
    log_event limit (record_event kind r id session_id now)
      (record m { snapshot = record_snapshot kind r now m.snapshot })

-- The locked part, of an event that is understood.
unfoldable pub record_locked :
    RecordKind → RuntimeRecord → (id session_id : String) → ℕ → Host → Host
unfolding record_snapshot record_event modify
record_locked kind r id session_id now h = record h {
  ids = h.ids + 1;
  sessions = modify session_id (record_managed kind r id session_id now h.history_limit) h.sessions;
}

abbrev pub is_open : ChallengeStatus → Bool
is_open challenge_pending = true
is_open challenge_continuing = true
is_open status = false

abbrev pub complete_open : String → ℕ → ManagedChallenge → ManagedChallenge
complete_open session_id now c =
    if str_eq c.snapshot.session_id session_id && is_open c.snapshot.status
    then record c {
      snapshot = record c.snapshot { status = challenge_completed; updated_at = now };
    }
    else c

abbrev pub complete_all :
    String → ℕ → List (String × ManagedChallenge) → List (String × ManagedChallenge)
complete_all session_id now [] = []
complete_all session_id now ((id, c) ∷ cs) =
    (id, complete_open session_id now c) ∷ complete_all session_id now cs

unfoldable pub clear_pending_challenges : String → ℕ → Host → Host
clear_pending_challenges session_id now h = record h {
  challenges = complete_all session_id now h.challenges;
}

-- A session that is ready has no challenge left: its snapshot names none then.
abbrev pub clear_if_ready : RecordKind → String → ℕ → Host → Host
clear_if_ready runtime_ready session_id now h = clear_pending_challenges session_id now h
clear_if_ready kind session_id now h = h

module _ (new_id : ℕ → String) where
  abbrev pub on_record :
      Option RecordKind → Option ManagedSession → RuntimeRecord → String → ℕ → Host → Host
  on_record (some kind) (some m) r session_id now h =
      let id = new_id h.ids in
      publish_event new_id (record_event kind r id session_id now)
        (clear_if_ready kind session_id now (record_locked kind r id session_id now h))
  on_record kind m r session_id now h = h

  unfoldable pub handle_runtime_record : String → RuntimeRecord → ℕ → Host → Host
  unfolding record_kind lookup record_locked clear_pending_challenges publish_event
  handle_runtime_record session_id r now h =
      on_record (record_kind r.event) (lookup session_id h.sessions) r session_id now h
