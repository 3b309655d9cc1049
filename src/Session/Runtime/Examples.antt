-- ===== src/Session/Runtime/Examples.antt =====
-- A run whose provider does not resolve its link.
use vk_turn_proxy_go.Base.{ℕ, ◌≡◌, refl, true, List, [], ◌∷◌, some, none}
use vk_turn_proxy_go.Base.Int.{pos}
use vk_turn_proxy_go.Base.Text.{is_blank, trim_space}
use vk_turn_proxy_go.Base.Result.{ok, err}
use vk_turn_proxy_go.RunStage.{GoError, plain, text, staged, provider_resolve, wrap, from_error}
use vk_turn_proxy_go.Overlay.Adapter.{normalize_adapter, validate_adapter}
use vk_turn_proxy_go.Config.{
  ClientConfig, default_client_config, validate_client, require_addr, normalize_adapter_kind,
}
use vk_turn_proxy_go.Session.Plan.{Dependencies, build_session_plan}
use vk_turn_proxy_go.Session.Supervisor.{Report, session_failure, emit}
use vk_turn_proxy_go.Session.Runtime.{World, prepare, run}
use vk_turn_proxy_go.Session.Runtime.Laws.{Fails, run-Fails}

abbrev refused : GoError
refused = plain (text "no credentials")

abbrev world : World ℕ ℕ
world = record {
  parse_ip = λ t. none;
  describe = λ e. text "invalid";
  split_host_port = λ a. ok (a, "3478");
  join_host_port = λ h p. h;
  has_registry = true;
  get_provider = λ p. ok tt;
  resolve = λ l. err refused;
  bind = λ p a. ok 0;
  supervise = λ p t s. ([], none);
}

abbrev client : ClientConfig
client = record default_client_config {
  provider = "vk";
  link = "https://vk.com/call/join/x";
  peer_addr = "203.0.113.5:56000";
}

abbrev deps : Dependencies
deps = record { restart_backoff = pos 0; max_worker_restarts = pos 0 }

abbrev reported : List Report
reported =
    emit "runtime_startup" "bootstrap" "started"
    ∷ session_failure "provider_resolve" true
    ∷ emit "runtime_failure" "provider_resolve" "failed"
    ∷ []

fails : prepare world client deps ≡ err (reported, some (staged provider_resolve refused))
unfolding prepare wrap from_error validate_client is_blank trim_space require_addr
    normalize_adapter_kind normalize_adapter validate_adapter build_session_plan
fails = refl

run-Fails_example :
    (run world client deps ≡ (reported, some (staged provider_resolve refused)))
    × Fails world client deps (reported, some (staged provider_resolve refused))
run-Fails_example =
    run-Fails world client deps reported (some (staged provider_resolve refused)) fails
