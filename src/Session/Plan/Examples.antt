-- ===== src/Session/Plan/Examples.antt =====
-- The plan of a TCP session over two connections.
use Prim.Native.String.{String}
use text.Mathlib.Text.{◌==◌ as str_eq}
use vk_turn_proxy_go.Base.{ℕ, ◌≡◌, refl, Option, none, some, if◌then◌else◌}
use vk_turn_proxy_go.Base.Int.{pos}
use vk_turn_proxy_go.Base.Text.{trim_space}
use vk_turn_proxy_go.Base.Result.{ok}
use vk_turn_proxy_go.Overlay.Adapter.{normalize_adapter, validate_adapter}
use vk_turn_proxy_go.Config.{ClientConfig, default_client_config}
use vk_turn_proxy_go.Session.Plan.{
  SessionPlan, Dependencies, turn_mode_tcp, peer_mode_dtls, build_session_plan,
}

-- A parser that knows one address.
abbrev parse_ip : String → Option ℕ
parse_ip t = if str_eq t "10.0.0.1" then some 167772161 else none

abbrev client : ClientConfig
client = record default_client_config {
  provider = "vk";
  link = "https://vk.com/call/join/x";
  peer_addr = "203.0.113.5:56000";
  ingress = "tcp ";
  connections = pos 2;
  mode = "tcp";
  bind_interface = " 10.0.0.1";
}

abbrev deps : Dependencies
deps = record { restart_backoff = pos 0; max_worker_restarts = pos 3 }

abbrev plan : SessionPlan ℕ
plan = record {
  connections = pos 2;
  restart_backoff = pos 200000000;
  max_worker_restarts = pos 3;
  transport = record {
    ingress = "tcp";
    mode = "tcp";
    turn_mode = turn_mode_tcp;
    peer_mode = peer_mode_dtls;
    bind_ip = some 167772161;
  };
}

builds : build_session_plan parse_ip client deps ≡ ok plan
unfolding build_session_plan normalize_adapter trim_space validate_adapter
builds = refl
