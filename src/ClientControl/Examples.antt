-- ===== src/ClientControl/Examples.antt =====
-- Sessions of a host, and identifiers that are all the same text.
use Prim.Native.String.{String, ◌++◌}
use vk_turn_proxy_go.Base.{ℕ, ◌≡◌, refl, true, false, List, [], ◌∷◌, some, none}
use vk_turn_proxy_go.Base.Int.{pos}
use vk_turn_proxy_go.Base.TextDict.{lookup}
use vk_turn_proxy_go.Base.Text.{is_space, trim_space}
use vk_turn_proxy_go.ClientControl.Types.{challenge_completed, Challenge, challenge_pending}
use vk_turn_proxy_go.ClientControl.Host.{Host, ManagedSession, new_host}
use vk_turn_proxy_go.ClientControl.Host.Sessions.{
  start_session, start_locked, fresh_session, stop_session, finish_session, now_stopping,
  stop_snapshot, RunResult, run_failed,
}
use vk_turn_proxy_go.ClientControl.Host.Records.{RuntimeRecord, runtime_failure}
use vk_turn_proxy_go.ClientControl.Host.Steps.{
  Step, starts, records_challenge, completes, stops, cancels, records, run_steps,
}
use vk_turn_proxy_go.ClientControl.Artifacts.Contract.{Library}
use vk_turn_proxy_go.ClientControl.Host.Invariant.{Inv, run_steps-Inv}
use vk_turn_proxy_go.ClientControl.Host.Stopped.{
  EndsAs, fails_last, handle_records, finish_session-stop_session,
}

abbrev new_id : ℕ → String
new_id n = "event"

abbrev lib : Library
lib = record {
  parse_rfc3339 = λ s. none;
  url_text = λ scheme username password host. scheme ++ "://" ++ username ++ "@" ++ host;
  quote = λ s. s;
}

abbrev challenge : Challenge
challenge = record {
  id = "challenge";
  session_id = "session";
  resolution_id = "";
  provider = "vk";
  stage = "provider_resolve";
  kind = "captcha";
  prompt = "";
  open_url = "";
  status = challenge_pending;
  completion_mode = "manual_confirm";
  created_at = 11;
  updated_at = 11;
}

abbrev failure_record : RuntimeRecord
failure_record = record {
  event = "runtime_failure";
  stage = "turn_allocate";
  result = "";
  error_text = "allocation refused";
  backoff = "";
  connections = pos 0;
  restart = pos 0;
}

-- A session of which the history is longer than the limit.
abbrev steps : List Step
steps =
    starts "session" "" "" "" 10
    ∷ records_challenge "e1" "session" challenge
    ∷ completes "e2" "challenge" challenge_completed "continued" challenge
    ∷ stops "session" 12
    ∷ cancels "session"
    ∷ records runtime_failure failure_record "e3" "session" 13
    ∷ []

run_steps-Inv_example : Inv (run_steps lib new_id steps (new_host 2 []))
run_steps-Inv_example = run_steps-Inv lib new_id 2 [] steps

abbrev started : Host
started = start_locked "session" "profile" "Home" "" 10 (new_host 0 [])

abbrev run_error : RunResult
run_error =
    run_failed
      (record { stage = "turn_allocate"; message = "allocation refused"; not_implemented = false })

has_started :
    lookup "session" started.sessions ≡ some (fresh_session "session" "profile" "Home" "" 10 256)
unfolding lookup start_locked new_host
has_started = refl

-- The runtime tells of the failure before its run returns.
abbrev told : List (RuntimeRecord × ℕ)
told = (failure_record, 12) ∷ []

finish_session-stop_session_example :
    (let (reply, t) = stop_session new_id "session" 11 started in
      let m = fresh_session "session" "profile" "Home" "" 10 256 in
      (c : ManagedSession) × (n : ManagedSession) × (reply
        ≡ now_stopping (stop_snapshot 11 m.snapshot))
      × (lookup "session" t.sessions ≡ some c)
      × (c.cancelled ≡ true)
      × (lookup "session"
            (finish_session new_id "session" 13 run_error
              (handle_records new_id "session" told t)).sessions
          ≡ some n)
      × (n.done ≡ true)
      × EndsAs (fails_last false told) 13 n.snapshot)
unfolding fresh_session
finish_session-stop_session_example =
    finish_session-stop_session new_id "session" 11 13 told run_error started
      (fresh_session "session" "profile" "Home" "" 10 256) has_started refl refl

-- The first answer is taken, the second is blank.
abbrev answers : List String
answers = "session" ∷ " " ∷ " other " ∷ []

abbrev other : ManagedSession
other = fresh_session "other" "" "" "" 11 256

starts_other :
    start_session new_id answers "" "" "" 11 started
    ≡ (some other.snapshot, (start_session new_id answers "" "" "" 11 started).1)
unfolding start_session start_locked new_host trim_space is_space lookup fresh_session
starts_other = refl
