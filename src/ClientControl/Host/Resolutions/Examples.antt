-- ===== src/ClientControl/Host/Resolutions/Examples.antt =====
-- A resolution of TURN credentials that are valid for 100 nanoseconds.
use Prim.Native.String.{String, ◌++◌}
use vk_turn_proxy_go.Base.{ℕ, ◌≡◌, refl, false, List, [], ◌∷◌, none, some}
use vk_turn_proxy_go.Base.Int.{pos}
use vk_turn_proxy_go.Base.Text.{is_blank, is_space}
use vk_turn_proxy_go.Base.TextDict.{lookup}
use vk_turn_proxy_go.Base.Result.{ok, err}
use vk_turn_proxy_go.ClientControl.Execution.Matrix.{start_on_this_device}
use vk_turn_proxy_go.ClientControl.Artifacts.{
  ProviderResolution, ProviderDescriptor, export_handoff,
}
use vk_turn_proxy_go.ClientControl.Artifacts.Contract.{Library, resolved_contract}
use vk_turn_proxy_go.ClientControl.Artifacts.Privacy.{with_secrets, resolved_contract-with_secrets}
use vk_turn_proxy_go.ClientControl.Types.{Challenge, challenge_pending, challenge_completed}
use vk_turn_proxy_go.ClientControl.Host.{Host, ManagedResolution, StartedInput, new_host}
use vk_turn_proxy_go.ClientControl.Host.Resolutions.{cancel_resolution}
use vk_turn_proxy_go.ClientControl.Host.Resolutions.Start.{
  fresh_resolution, start_resolution_locked,
}
use vk_turn_proxy_go.ClientControl.Host.Resolutions.Finish.{finish_run, finish_success_of}
use vk_turn_proxy_go.ClientControl.Host.Resolutions.Export.{
  ExportResult, expired, export_resolution, materialize_resolution, starts_session,
}
use vk_turn_proxy_go.ClientControl.Host.Resolutions.Secrets.{Inv, run_steps-SpentIf}
use vk_turn_proxy_go.ClientControl.Host.Resolutions.Exports.{
  ExportedFrom, export_resolution-ExportedFrom,
}
use vk_turn_proxy_go.ClientControl.Host.Resolutions.Starts.{
  StartsFrom, materialize_resolution-StartsFrom,
}
use vk_turn_proxy_go.ClientControl.Host.Resolutions.Outcomes.{
  EndsWith, StaysCancelled, LateRun, outcome, finish_run-outcome, finish_run-cancel_resolution,
}
use vk_turn_proxy_go.ClientControl.Host.Steps.{
  Step, starts_resolution, asks, completes, resolves, expires, run_steps,
}

abbrev lib : Library
lib = record {
  parse_rfc3339 = λ s. none;
  url_text = λ scheme username password host. scheme ++ "://" ++ username ++ "@" ++ host;
  quote = λ s. s;
}

abbrev new_id : ℕ → String
new_id n = "event"

abbrev descriptor : ProviderDescriptor
descriptor = record {
  id = "vk";
  input_kind = "link";
  challenge_modes = "browser" ∷ [];
  artifact_families = "generic_turn" ∷ [];
  potential_actions = start_on_this_device ∷ export_handoff ∷ [];
}

abbrev input : StartedInput
input = record { provider = "vk"; kind = "link"; link = "https://x"; interactive_provider = false }

abbrev answer : ProviderResolution
answer = record {
  credentials = record { username = "u"; password = "u"; address = "turn:3478"; ttl = pos 100 };
  metadata = [];
  artifact = none;
}

abbrev challenge : Challenge
challenge = record {
  id = "challenge";
  session_id = "";
  resolution_id = "r";
  provider = "vk";
  stage = "provider_resolve";
  kind = "captcha";
  prompt = "";
  open_url = "";
  status = challenge_pending;
  completion_mode = "manual_confirm";
  created_at = 11;
  updated_at = 11;
}

abbrev steps : List Step
steps =
    starts_resolution "r" descriptor input "<redacted>" 10
    ∷ asks "e1" "r" challenge
    ∷ completes "e2" "challenge" challenge_completed "continued" challenge
    ∷ resolves "r" answer 12
    ∷ expires "r" 112
    ∷ []

run_steps-SpentIf_example : Inv (run_steps lib new_id steps (new_host 2 []))
run_steps-SpentIf_example = run_steps-SpentIf lib new_id 2 [] steps

abbrev started : Host
started = start_resolution_locked "r" descriptor input "<redacted>" 10 (new_host 0 [])

abbrev fresh : ManagedResolution
fresh = fresh_resolution "r" descriptor input "<redacted>" 10 256

has_started : lookup "r" started.resolutions ≡ some fresh
unfolding lookup start_resolution_locked new_host
has_started = refl

abbrev resolved : Host
resolved = finish_run lib new_id "r" (ok answer) 12 started

abbrev link : ExportResult
link = record {
  resolution_id = "r";
  link = "generic-turn://u@turn:3478";
  expires_at = 112;
  expiry_source = "provider_credentials_ttl";
}

is_exported : (export_resolution lib new_id "r" 50 resolved).0 ≡ ok link
unfolding export_resolution lookup start_resolution_locked new_host finish_success_of
is_exported = refl

is_expired : (export_resolution lib new_id "r" 112 resolved).0 ≡ err expired
unfolding export_resolution lookup start_resolution_locked new_host finish_success_of
is_expired = refl

export_resolution-ExportedFrom_example :
    (m : ManagedResolution) × (lookup "r" resolved.resolutions ≡ some m)
    × ExportedFrom lib new_id m 50 link
export_resolution-ExportedFrom_example =
    export_resolution-ExportedFrom lib new_id "r" 50 resolved link is_exported

is_started :
    (materialize_resolution lib new_id "r" 50 none resolved).0
    ≡ ok (starts_session "generic-turn://u@turn:3478")
unfolding materialize_resolution lookup start_resolution_locked new_host finish_success_of
is_started = refl

materialize_resolution-StartsFrom_example :
    (m : ManagedResolution) × (lookup "r" resolved.resolutions ≡ some m)
    × StartsFrom lib new_id m 50 none "generic-turn://u@turn:3478"
materialize_resolution-StartsFrom_example =
    materialize_resolution-StartsFrom lib new_id "r" 50 none resolved "generic-turn://u@turn:3478"
      is_started

finish_run-outcome_example :
    EndsWith "r"
      (outcome lib started.platform_tunnels (ok answer) 12 fresh)
      (finish_run lib new_id "r" (ok answer) 12 started)
unfolding fresh_resolution
finish_run-outcome_example =
    finish_run-outcome lib new_id "r" (ok answer) 12 started fresh has_started refl refl

finish_run-cancel_resolution_example :
    (let (reply, t) = cancel_resolution new_id "r" 11 started in
      StaysCancelled lib new_id "r" fresh reply 11 t
      × LateRun lib new_id "r" (ok answer) 12 fresh t)
unfolding fresh_resolution
finish_run-cancel_resolution_example =
    finish_run-cancel_resolution lib new_id "r" (ok answer) 11 12 started fresh has_started refl

same_blanks : is_blank "other" ≡ is_blank "u"
unfolding is_blank is_space
same_blanks = refl

resolved_contract-with_secrets_example :
    resolved_contract lib descriptor (with_secrets "other" "other" answer) 12 []
    ≡ resolved_contract lib descriptor answer 12 []
resolved_contract-with_secrets_example =
    resolved_contract-with_secrets lib descriptor answer "other" "other" 12 [] same_blanks
      same_blanks
