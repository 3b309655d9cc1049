-- ===== src/ClientControl/Host/Steps.antt =====
-- pkg/clientcontrol/host.go and resolution.go: the locked parts of the methods, as steps that may follow one another in
-- any order, as the goroutines of the sessions and the calls of clients do.
use Prim.Native.String.{String}
use vk_turn_proxy_go.Base.{ℕ, List, [], ◌∷◌}
use vk_turn_proxy_go.ClientControl.Types.{Session, Challenge, ChallengeStatus, Event}
use vk_turn_proxy_go.ClientControl.Artifacts.{ProviderResolution, ProviderDescriptor}
use vk_turn_proxy_go.ClientControl.Artifacts.Contract.{Library}
use vk_turn_proxy_go.ClientControl.Artifacts.Failure.{ResolveError}
use vk_turn_proxy_go.Base.TextDict.{modify}
use vk_turn_proxy_go.Base.{true}
use vk_turn_proxy_go.ClientControl.Host.{StartedInput}
use vk_turn_proxy_go.ClientControl.Host.Resolutions.{
  expire_locked, cancel_locked, cancel_resolution_context,
}
use vk_turn_proxy_go.ClientControl.Host.Resolutions.Start.{start_resolution_locked}
use vk_turn_proxy_go.ClientControl.Host.Resolutions.Finish.{
  succeed_locked, fail_locked, record_resolution_challenge_locked,
}
use vk_turn_proxy_go.ClientControl.Host.{ChallengeAction, Host, publish_event}
use vk_turn_proxy_go.ClientControl.Host.Sessions.{
  RunResult, start_locked, stop_locked, cancel_session, finish_locked, finish_log, close_done,
}
use vk_turn_proxy_go.ClientControl.Host.Records.{
  RecordKind, RuntimeRecord, record_locked, clear_pending_challenges,
}
use vk_turn_proxy_go.ClientControl.Host.Challenges.{
  record_challenge_locked, complete_locked, signal_locked, signal_send, signal_log,
}

pub data Step : Type 0 where
  starts : (id profile_id profile_name source_resolution_id : String) → ℕ → Step
  stops : String → ℕ → Step
  cancels : String → Step
  finishes : String → ℕ → RunResult → Step
  logs_finish : String → Session → Step
  closes : String → Step
  publishes : Event → Step
  records : RecordKind → RuntimeRecord → (id session_id : String) → ℕ → Step
  clears : String → ℕ → Step
  records_challenge : (id session_id : String) → Challenge → Step
  completes : (id key : String) → ChallengeStatus → String → Challenge → Step
  signals : String → Challenge → Step
  sends : String → ChallengeAction → Step
  logs_signal : Challenge → Event → Step
  starts_resolution : String → ProviderDescriptor → StartedInput → String → ℕ → Step
  expires cancels_resolution : String → ℕ → Step
  cancels_context leases : String → Step
  resolves : String → ProviderResolution → ℕ → Step
  fails : String → ResolveError → ℕ → Step
  asks : (id resolution_id : String) → Challenge → Step

-- The lease of a carrier is stored.
unfoldable pub lease_locked : String → Host → Host
unfolding modify
lease_locked id h = record h {
  resolutions = modify id (λ m. record m { has_lease = true }) h.resolutions;
}

module _ (lib : Library) (new_id : ℕ → String) where
  unfoldable pub run_step : Step → Host → Host
  unfolding start_locked stop_locked cancel_session finish_locked finish_log close_done
      publish_event record_locked clear_pending_challenges record_challenge_locked complete_locked
      signal_locked signal_send signal_log start_resolution_locked expire_locked cancel_locked
      cancel_resolution_context lease_locked succeed_locked fail_locked
      record_resolution_challenge_locked
  run_step (starts id p n s now) h = start_locked id p n s now h
  run_step (stops id now) h = (stop_locked id now h).1
  run_step (cancels id) h = cancel_session id h
  run_step (finishes id now r) h = finish_locked id now r h
  run_step (logs_finish id s) h = finish_log id s h
  run_step (closes id) h = close_done id h
  run_step (publishes e) h = publish_event new_id e h
  run_step (records k r id session_id now) h = record_locked k r id session_id now h
  run_step (clears session_id now) h = clear_pending_challenges session_id now h
  run_step (records_challenge id session_id c) h = record_challenge_locked id session_id c h
  run_step (completes id key status message c) h = complete_locked id key status message c h
  run_step (signals key c) h = signal_locked key c h
  run_step (sends id a) h = signal_send id a h
  run_step (logs_signal c e) h = signal_log c e h
  run_step (starts_resolution id d input link now) h = start_resolution_locked id d input link now h
  run_step (expires id now) h = expire_locked id now h
  run_step (cancels_resolution id now) h = cancel_locked id now h
  run_step (cancels_context id) h = cancel_resolution_context id h
  run_step (leases id) h = lease_locked id h
  run_step (resolves id r now) h = succeed_locked lib id r now h
  run_step (fails id e now) h = fail_locked id e now h
  run_step (asks id resolution_id c) h = record_resolution_challenge_locked id resolution_id c h

  unfoldable pub run_steps : List Step → Host → Host
  unfolding run_step
  run_steps [] h = h
  run_steps (x ∷ xs) h = run_steps xs (run_step x h)
