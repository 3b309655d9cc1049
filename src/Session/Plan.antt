-- ===== src/Session/Plan.antt =====
-- internal/session/plan.go: the plan that a session follows, made from the client's configuration.
-- `parse_ip` stands for the parser of literal IP addresses, `net.ParseIP`.
pub mod Laws
mod Examples
use Prim.Native.String.{String}
use text.Mathlib.Text.{◌==◌ as str_eq}
use vk_turn_proxy_go.Base.{Bool, true, false, not, ◌&&◌, Option, none, some, if◌then◌else◌}
use vk_turn_proxy_go.Base.Int.{ℤ, pos, is_pos}
use vk_turn_proxy_go.Base.Text.{trim_space}
use vk_turn_proxy_go.Base.Result.{Result, ok, err, ◌>>=◌, ◌>>◌, guard}
use vk_turn_proxy_go.Overlay.Adapter.{
  AdapterKind, adapter_tcp, AdapterError, normalize_adapter, validate_adapter,
}
use vk_turn_proxy_go.Config.{
  ClientConfig, ConfigError, transport_mode_auto, transport_mode_tcp, transport_mode_udp,
  validate_client,
}

-- 200 milliseconds.
abbrev pub default_worker_restart_backoff : ℤ
default_worker_restart_backoff = pos 200000000

abbrev pub default_max_worker_restarts : ℤ
default_max_worker_restarts = pos 1

pub data TurnMode : Type 0 where
  turn_mode_udp turn_mode_tcp : TurnMode

pub data PeerMode : Type 0 where
  peer_mode_dtls peer_mode_plain : PeerMode

pub record TransportPlan (Ip : Type 0) : Type 0 where
  pub ingress : AdapterKind
  pub mode : String
  pub turn_mode : TurnMode
  pub peer_mode : PeerMode
  pub bind_ip : Option Ip

pub record SessionPlan (Ip : Type 0) : Type 0 where
  pub connections : ℤ
  pub restart_backoff : ℤ
  pub max_worker_restarts : ℤ
  pub transport : TransportPlan Ip

-- The fields of `Dependencies` that the plan reads.
pub record Dependencies : Type 0 where
  pub restart_backoff : ℤ
  pub max_worker_restarts : ℤ

pub data PlanError : Type 0 where
  invalid_config : ConfigError → PlanError
  invalid_adapter : AdapterError → PlanError
  unsupported_mode : String → PlanError
  tcp_without_dtls : AdapterKind → PlanError
  unsupported_bind_interface : String → PlanError

-- Errors returned as they are.
abbrev pub lift_adapter : Result AdapterError (Unit {0}) → Result PlanError (Unit {0})
lift_adapter (ok a) = ok tt
lift_adapter (err e) = err (invalid_adapter e)

abbrev pub lift_config : Result ConfigError (Unit {0}) → Result PlanError (Unit {0})
lift_config (ok a) = ok tt
lift_config (err e) = err (invalid_config e)

pub resolve_mode : String → String
resolve_mode mode = if str_eq mode transport_mode_auto then transport_mode_udp else mode

pub turn_mode_of : String → Result PlanError TurnMode
turn_mode_of mode =
    if str_eq mode transport_mode_udp
    then ok turn_mode_udp
    else if str_eq mode transport_mode_tcp
    then ok turn_mode_tcp
    else err (unsupported_mode mode)

module _ {Ip : Type 0} (parse_ip : String → Option Ip) where
  pub bind_ip_of : String → Result PlanError (Option Ip)
  bind_ip_of text =
      if str_eq (trim_space text) "" then ok none else elim (parse_ip (trim_space text)) [
        | none ↦ err (unsupported_bind_interface text)
        | some ip ↦ ok (some ip)
      ]

  unfoldable pub build_transport_plan : ClientConfig → Result PlanError (TransportPlan Ip)
  unfolding resolve_mode turn_mode_of bind_ip_of
  build_transport_plan c = do
    lift_adapter (validate_adapter (normalize_adapter c.ingress) "client ingress")
    turn_mode ← turn_mode_of (resolve_mode c.mode)
    guard (not (str_eq (normalize_adapter c.ingress) adapter_tcp && not c.use_dtls))
        (tcp_without_dtls (normalize_adapter c.ingress))
    bind_ip ← bind_ip_of c.bind_interface
    ok (record {
      ingress = normalize_adapter c.ingress;
      mode = resolve_mode c.mode;
      turn_mode = turn_mode;
      peer_mode = if c.use_dtls then peer_mode_dtls else peer_mode_plain;
      bind_ip = bind_ip;
    })

  unfoldable pub build_session_plan :
      ClientConfig → Dependencies → Result PlanError (SessionPlan Ip)
  unfolding build_transport_plan
  build_session_plan c deps = do
    transport ← build_transport_plan c
    ok (record {
      connections = c.connections;
      restart_backoff =
          if is_pos deps.restart_backoff
          then deps.restart_backoff
          else default_worker_restart_backoff;
      max_worker_restarts =
          if is_pos deps.max_worker_restarts
          then deps.max_worker_restarts
          else default_max_worker_restarts;
      transport = transport;
    })

  unfoldable pub validate_policy : ClientConfig → Result PlanError (Unit {0})
  unfolding build_session_plan
  validate_policy c = do
    lift_config (validate_client c)
    plan ← build_session_plan c (record { restart_backoff = pos 0; max_worker_restarts = pos 0 })
    ok tt
