-- ===== src/ClientControl/Host/Stopped.antt =====
-- How a session ends that was stopped, with what its runtime records meanwhile.
use Prim.Native.String.{String}
use text.Mathlib.Text.{◌==◌ as str_eq}
use vk_turn_proxy_go.Base.{
  ℕ, ◌≡◌, refl, ap, ◌∙◌, Bool, true, false, List, [], ◌∷◌, Option, none, some, arith, if◌then◌else◌,
}
use vk_turn_proxy_go.Base.Text.{is_empty}
use vk_turn_proxy_go.Base.TextDict.{lookup, lookup-modify_self}
use vk_turn_proxy_go.ClientControl.Types.{SessionState, stopped, failed, Session}
use vk_turn_proxy_go.ClientControl.Host.{ManagedSession, Host}
use vk_turn_proxy_go.ClientControl.Host.Sessions.{
  stop_snapshot, now_stopping, stop_session, is_final, is_failed, RunResult, finish_snapshot,
  finish_session,
}
use vk_turn_proxy_go.ClientControl.Host.Records.{
  RecordKind, runtime_ready, worker_restart_scheduled, runtime_failure, runtime_startup,
  RuntimeRecord, record_kind, record_snapshot, record_event, record_managed, record_locked,
  clear_pending_challenges, clear_if_ready, on_record, handle_runtime_record,
}
use vk_turn_proxy_go.ClientControl.Host.Endings.{
  publish_event-sessions, finish_session-lookup, stopped_now, stop_session-lookup,
}

-- Whether a session that has failed or not has failed after an event.
abbrev pub fails_after : Bool → (event : String) → Bool
fails_after before event =
    if str_eq event "runtime_ready"
    then false
    else if str_eq event "worker_restart_scheduled"
    then false
    else if str_eq event "runtime_failure"
    then true
    else if str_eq event "runtime_startup"
    then false
    else before

-- Whether the last record that says how a session is says that it failed.
abbrev pub fails_last : Bool → List (RuntimeRecord × ℕ) → Bool
fails_last before [] = before
fails_last before ((r, now) ∷ rs) = fails_last (fails_after before r.event) rs

abbrev fails_by : Option RecordKind → Bool → Bool
fails_by none before = before
fails_by (some runtime_failure) before = true
fails_by (some runtime_ready) before = false
fails_by (some worker_restart_scheduled) before = false
fails_by (some runtime_startup) before = false

record_kind-fails_by :
    (before : Bool) (event : String)
    → fails_by (record_kind event) before ≡ fails_after before event
unfolding record_kind
record_kind-fails_by before event = ground arith

record_snapshot-fails_by :
    (k : RecordKind) (r : RuntimeRecord) (now : ℕ) (s : Session) (before : Bool)
    → is_failed (record_snapshot k r now s).state ≡ fails_by (some k) before
unfolding record_snapshot
record_snapshot-fails_by runtime_ready r now s before = refl
record_snapshot-fails_by worker_restart_scheduled r now s before = refl
record_snapshot-fails_by runtime_failure r now s before = refl
record_snapshot-fails_by runtime_startup r now s before = refl

clear_if_ready-sessions :
    (k : RecordKind) (id : String) (now : ℕ) (h : Host)
    → (clear_if_ready k id now h).sessions ≡ h.sessions
unfolding clear_pending_challenges
clear_if_ready-sessions runtime_ready id now h = refl
clear_if_ready-sessions worker_restart_scheduled id now h = refl
clear_if_ready-sessions runtime_failure id now h = refl
clear_if_ready-sessions runtime_startup id now h = refl

-- A session ends as failed, or as stopped at an instant.
abbrev pub EndsAs : (has_failed : Bool) → ℕ → Session → Type 0
EndsAs true later s = s.state ≡ failed
EndsAs false later s = (s.state ≡ stopped) × (s.stopped_at ≡ some later)

failed_of-is_failed : (x : SessionState) → is_failed x ≡ true → x ≡ failed
failed_of-is_failed failed h = refl
failed_of-is_failed x h = cc

finish_snapshot-EndsAs :
    (b : Bool) (later : ℕ) (r : RunResult) (s : Session)
    → is_failed s.state ≡ b
    → EndsAs b later (finish_snapshot later true r s)
finish_snapshot-EndsAs true later r s h = rw h (failed_of-is_failed s.state h)
finish_snapshot-EndsAs false later r s h = rw h (refl, refl)

module _ (new_id : ℕ → String) where
  -- What the runtime records, each at an instant.
  abbrev pub handle_records : String → List (RuntimeRecord × ℕ) → Host → Host
  handle_records id [] h = h
  handle_records id ((r, now) ∷ rs) h =
      handle_records id rs (handle_runtime_record new_id id r now h)

  -- The host has a session that was asked to stop, and that has failed or not.
  abbrev IsStopping : Bool → String → Host → Type 0
  IsStopping b id h =
      (m : ManagedSession) × (lookup id h.sessions ≡ some m)
      × (m.stop_requested ≡ true)
      × (is_failed m.snapshot.state ≡ b)

  on_record-IsStopping :
      (k : Option RecordKind) (o : Option ManagedSession) (r : RuntimeRecord) (id : String)
      (now : ℕ) (h : Host) (b : Bool)
      → lookup id h.sessions ≡ o
      → IsStopping b id h
      → IsStopping (fails_by k b) id (on_record new_id k o r id now h)
  unfolding record_locked
  on_record-IsStopping none o r id now h b e i = i
  on_record-IsStopping (some k) none r id now h b e i = let l = i.1 in cc
  on_record-IsStopping (some k) (some x) r id now h b e (m, l, s, f) =
      let told = new_id h.ids in
      let change = record_managed k r told id now h.history_limit in
      let t = record_locked k r told id now h in
      (
        change m,
        ap (lookup id) (
              publish_event-sessions new_id (record_event k r told id now)
                (clear_if_ready k id now t)
              ∙ clear_if_ready-sessions k id now t)
            ∙ lookup-modify_self id change h.sessions m l,
        s,
        record_snapshot-fails_by k r now m.snapshot b,
      )

  handle_records-IsStopping :
      (rs : List (RuntimeRecord × ℕ)) (id : String) (h : Host) (b : Bool)
      → IsStopping b id h
      → IsStopping (fails_last b rs) id (handle_records id rs h)
  unfolding handle_runtime_record
  handle_records-IsStopping [] id h b i = i
  handle_records-IsStopping ((r, now) ∷ rs) id h b i =
      let next =
        on_record-IsStopping (record_kind r.event) (lookup id h.sessions) r id now h b refl i in
      handle_records-IsStopping rs id (handle_runtime_record new_id id r now h)
        (fails_after b r.event) (rw (record_kind-fails_by b r.event) at next)

  -- StopSession of a session that is neither stopped nor failed nor of a platform tunnel answers that it is
  -- stopping, and cancels it. When its run then returns, whatever it returns, with only records of its
  -- runtime before, the session is done; it is failed where the last record that says how it is says that
  -- it failed, and stopped otherwise, at the time of the return.
  pub finish_session-stop_session :
      (id : String) (now later : ℕ) (rs : List (RuntimeRecord × ℕ)) (r : RunResult) (h : Host)
      (m : ManagedSession)
      → lookup id h.sessions ≡ some m
      → is_empty m.platform_mode ≡ true
      → is_final m.snapshot.state ≡ false
      → (let (reply, t) = stop_session new_id id now h in
          (c : ManagedSession) × (n : ManagedSession) × (reply
            ≡ now_stopping (stop_snapshot now m.snapshot))
          × (lookup id t.sessions ≡ some c)
          × (c.cancelled ≡ true)
          × (lookup id (finish_session new_id id later r (handle_records id rs t)).sessions
              ≡ some n)
          × (n.done ≡ true)
          × EndsAs (fails_last false rs) later n.snapshot)
  finish_session-stop_session id now later rs r h m k p f =
      let (reply, l) = stop_session-lookup new_id id now h m k p f in
      let c = stopped_now new_id now h.history_limit m in
      let t = (stop_session new_id id now h).1 in
      let (y, ly, sy, fy) = handle_records-IsStopping rs id t false (c, l, refl, refl) in
      let (n, e, d, s) = finish_session-lookup new_id id later r (handle_records id rs t) y ly in
      let ends : EndsAs (fails_last false rs) later
          (finish_snapshot later y.stop_requested r y.snapshot) =
        rw sy (finish_snapshot-EndsAs (fails_last false rs) later r y.snapshot fy) in
      (c, n, reply, l, refl, e, d, rw s ends)
