-- ===== src/ClientControl/Execution.antt =====
-- pkg/clientcontrol/runtime_execution_planning.go: the plans by which a resolution is started on a
-- device, and the words of the compatibility matrix. What a descriptor says of the transport profile
-- that is chosen for it is left out.
pub mod Matrix
pub mod Select
pub mod Choice
pub mod Chosen
pub mod Rows
mod Examples
use Prim.Native.String.{String}
use text.Mathlib.Text.{◌==◌ as str_eq}
use vk_turn_proxy_go.Base.{Bool, true, false, ◌&&◌, ◌||◌, List}

abbrev pub turn_credentials : String
turn_credentials = "turn_credentials"

abbrev pub webrtc_call_attach : String
webrtc_call_attach = "webrtc_call_attach"

abbrev pub turn_datagram : String
turn_datagram = "turn_datagram"

abbrev pub turn_dtls_overlay : String
turn_dtls_overlay = "turn_dtls_overlay"

abbrev pub webrtc_datachannel : String
webrtc_datachannel = "webrtc_datachannel"

abbrev pub wireguard_native : String
wireguard_native = "wireguard_native"

abbrev pub custom_packet_overlay : String
custom_packet_overlay = "custom_packet_overlay"

abbrev pub proxy_core_adapter : String
proxy_core_adapter = "proxy_core_adapter"

abbrev pub trusttunnel_native : String
trusttunnel_native = "trusttunnel_native"

abbrev pub android_vpn_service : String
android_vpn_service = "android_vpn_service"

abbrev pub apple_network_extension : String
apple_network_extension = "apple_network_extension"

abbrev pub windows_wintun : String
windows_wintun = "windows_wintun"

abbrev pub linux_tun : String
linux_tun = "linux_tun"

abbrev pub supported : String
supported = "supported"

abbrev pub unavailable : String
unavailable = "unavailable"

abbrev pub experimental : String
experimental = "experimental"

abbrev pub turn_server : String
turn_server = "turn_server"

abbrev pub webrtc_call_endpoint : String
webrtc_call_endpoint = "webrtc_call_endpoint"

abbrev pub https_tunnel_server : String
https_tunnel_server = "https_tunnel_server"

abbrev pub turn_dtls_custom_overlay : String
turn_dtls_custom_overlay = "turn_dtls_custom_overlay"

abbrev pub wireguard_raw_datagram : String
wireguard_raw_datagram = "wireguard_raw_datagram"

abbrev pub udp_protocol_multiplexer : String
udp_protocol_multiplexer = "udp_protocol_multiplexer"

abbrev pub dtls_custom_overlay : String
dtls_custom_overlay = "dtls_custom_overlay"

abbrev pub raw_wireguard_datagram : String
raw_wireguard_datagram = "raw_wireguard_datagram"

abbrev pub dedicated : String
dedicated = "dedicated"

abbrev pub mux_backed : String
mux_backed = "mux_backed"

abbrev pub wireguard_native_v1 : String
wireguard_native_v1 = "wireguard_native_v1"

pub record RuntimeExecutionPlan : Type 0 where
  pub access_method : String
  pub carrier_family : String
  pub engine_family : String
  pub host_adapter : String

-- `is_default` is the source's `Default`.
pub record RuntimeExecutionPlanDescriptor : Type 0 where
  pub plan : RuntimeExecutionPlan
  pub support_state : String
  pub remote_endpoint_family : String
  pub remote_endpoint_role : String
  pub is_default : Bool
  pub requires_capability : String
  pub required_transport_profile_kinds : List String
  pub message : String

-- `execution_plans` and what the default plans are made of.
pub record PlatformTunnelCapability : Type 0 where
  pub mode : String
  pub available : Bool
  pub execution_plans : List RuntimeExecutionPlanDescriptor
  pub message : String

pub record RuntimeRemoteIngressDiagnostics : Type 0 where
  pub endpoint_family : String
  pub endpoint_role : String
  pub protocol : String
  pub address : String
  pub isolation : String

unfoldable pub plan_equals : RuntimeExecutionPlan → RuntimeExecutionPlan → Bool
plan_equals l r =
    str_eq l.access_method r.access_method
    && str_eq l.carrier_family r.carrier_family
    && str_eq l.engine_family r.engine_family
    && str_eq l.host_adapter r.host_adapter
