-- ===== src/Config.antt =====
-- internal/config/config.go: the configurations of the server, the client and the probe, and what
-- they are checked for. `ProviderSettings` is passed on unread, and is left out. A duration is its
-- number of nanoseconds.
pub mod Laws
mod Examples
use Prim.Native.String.{String}
use text.Mathlib.Text.{◌==◌ as str_eq}
use vk_turn_proxy_go.Base.{Bool, true, false, not, ◌&&◌, ◌||◌, if◌then◌else◌}
use vk_turn_proxy_go.Base.Int.{ℤ, pos, is_pos, is_neg}
use vk_turn_proxy_go.Base.Text.{trim_space, is_blank}
use vk_turn_proxy_go.Base.Result.{Result, ok, err, ◌>>=◌, ◌>>◌, guard}
use vk_turn_proxy_go.Overlay.Adapter.{
  AdapterKind, adapter_udp, adapter_tcp, AdapterError, validate_adapter,
}

abbrev pub transport_mode_auto : String
transport_mode_auto = "auto"

abbrev pub transport_mode_tcp : String
transport_mode_tcp = "tcp"

abbrev pub transport_mode_udp : String
transport_mode_udp = "udp"

abbrev pub server_peer_mode_dtls : String
server_peer_mode_dtls = "dtls"

abbrev pub server_peer_mode_plain : String
server_peer_mode_plain = "plain"

pub record ServerConfig : Type 0 where
  pub listen_addr : String
  pub upstream_addr : String
  pub egress : AdapterKind
  pub peer_mode : String
  pub handshake_timeout : ℤ
  pub idle_timeout : ℤ

pub record ClientConfig : Type 0 where
  pub provider : String
  pub link : String
  pub listen_addr : String
  pub peer_addr : String
  pub ingress : AdapterKind
  pub connections : ℤ
  pub turn_server : String
  pub turn_port : String
  pub bind_interface : String
  pub handshake_timeout : ℤ
  pub mode : String
  pub use_dtls : Bool

pub record ProbeConfig : Type 0 where
  pub provider : String
  pub link : String
  pub bind_interface : String
  pub output_dir : String
  pub list_providers : Bool

abbrev pub default_server_config : ServerConfig
default_server_config = record {
  listen_addr = "0.0.0.0:56000";
  upstream_addr = "";
  egress = adapter_udp;
  peer_mode = server_peer_mode_dtls;
  handshake_timeout = pos 30000000000;
  idle_timeout = pos 1800000000000;
}

abbrev pub default_client_config : ClientConfig
default_client_config = record {
  provider = "";
  link = "";
  listen_addr = "127.0.0.1:9000";
  peer_addr = "";
  ingress = adapter_udp;
  connections = pos 1;
  turn_server = "";
  turn_port = "";
  bind_interface = "";
  handshake_timeout = pos 0;
  mode = transport_mode_auto;
  use_dtls = true;
}

pub data ConfigError : Type 0 where
  required : (field : String) → ConfigError
  address_required : (name : String) → ConfigError
  invalid_adapter : AdapterError → ConfigError
  unsupported_peer_mode : String → ConfigError
  unsupported_transport_mode : String → ConfigError
  connections_not_positive handshake_not_positive idle_not_positive : ConfigError
  handshake_negative : ConfigError

-- An adapter's error returned as it is.
abbrev pub check_adapter : Result AdapterError (Unit {0}) → Result ConfigError (Unit {0})
check_adapter (ok a) = ok tt
check_adapter (err e) = err (invalid_adapter e)

unfoldable pub require_addr : String → String → Result ConfigError (Unit {0})
require_addr name value = guard (not (is_blank value)) (address_required name)

unfoldable pub normalize_adapter_kind : AdapterKind → AdapterKind
normalize_adapter_kind kind =
    let t = trim_space kind in
    if str_eq t "" || str_eq t adapter_udp
    then adapter_udp
    else if str_eq t adapter_tcp
    then adapter_tcp
    else kind

-- The cases of the `switch` over the peer mode of a server.
pub is_peer_mode : String → Bool
is_peer_mode mode =
    str_eq mode "" || str_eq mode server_peer_mode_dtls || str_eq mode server_peer_mode_plain

-- The negation of the `if` over the transport mode of a client.
pub is_transport_mode : String → Bool
is_transport_mode mode =
    str_eq mode transport_mode_auto
    || str_eq mode transport_mode_tcp
    || str_eq mode transport_mode_udp

unfoldable pub validate_server : ServerConfig → Result ConfigError (Unit {0})
unfolding require_addr is_peer_mode
validate_server c = do
  require_addr "listen" c.listen_addr
  require_addr "upstream" c.upstream_addr
  check_adapter (validate_adapter (normalize_adapter_kind c.egress) "server egress")
  guard (is_peer_mode c.peer_mode) (unsupported_peer_mode c.peer_mode)
  guard (is_pos c.handshake_timeout) handshake_not_positive
  guard (is_pos c.idle_timeout) idle_not_positive

unfoldable pub validate_client : ClientConfig → Result ConfigError (Unit {0})
unfolding require_addr is_transport_mode
validate_client c = do
  guard (not (is_blank c.provider)) (required "provider")
  guard (not (is_blank c.link)) (required "link")
  require_addr "listen" c.listen_addr
  require_addr "peer" c.peer_addr
  check_adapter (validate_adapter (normalize_adapter_kind c.ingress) "client ingress")
  guard (is_pos c.connections) connections_not_positive
  guard (is_transport_mode c.mode) (unsupported_transport_mode c.mode)
  guard (not (is_neg c.handshake_timeout)) handshake_negative

unfoldable pub validate_probe : ProbeConfig → Result ConfigError (Unit {0})
validate_probe c = if c.list_providers then ok tt else do
  guard (not (is_blank c.provider)) (required "provider")
  guard (not (is_blank c.link)) (required "link")
  guard (not (is_blank c.output_dir)) (required "output dir")
