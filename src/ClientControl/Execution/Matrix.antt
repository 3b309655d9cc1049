-- ===== src/ClientControl/Execution/Matrix.antt =====
-- pkg/clientcontrol/runtime_execution_matrix.go: which plans there are, and which descriptors of them
-- are valid. An error is a constructor, with the values that its text shows.
use Prim.Native.String.{String}
use text.Mathlib.Text.{◌==◌ as str_eq}
use vk_turn_proxy_go.Base.{Bool, true, not, ◌&&◌, ◌||◌, List, [], ◌∷◌, ◌++◌, if◌then◌else◌}
use vk_turn_proxy_go.Base.Text.{is_blank, is_empty, trim_space}
use vk_turn_proxy_go.Base.Result.{Result, ok, err, ◌>>◌, guard}
use vk_turn_proxy_go.ClientControl.Execution.{
  turn_credentials, webrtc_call_attach, turn_datagram, turn_dtls_overlay, webrtc_datachannel,
  wireguard_native, custom_packet_overlay, proxy_core_adapter, trusttunnel_native,
  android_vpn_service, apple_network_extension, windows_wintun, linux_tun, supported, unavailable,
  experimental, turn_server, webrtc_call_endpoint, https_tunnel_server, turn_dtls_custom_overlay,
  wireguard_raw_datagram, udp_protocol_multiplexer, dtls_custom_overlay, raw_wireguard_datagram,
  dedicated, mux_backed, wireguard_native_v1, RuntimeExecutionPlan, RuntimeExecutionPlanDescriptor,
  PlatformTunnelCapability, RuntimeRemoteIngressDiagnostics,
}

abbrev pub capability_experimental_webrtc_datachannel : String
capability_experimental_webrtc_datachannel = "runtime_execution_experimental_webrtc_datachannel"

abbrev pub capability_foreign_core : String
capability_foreign_core = "runtime_execution_foreign_core"

abbrev pub start_on_this_device : String
start_on_this_device = "start_on_this_device"

abbrev pub generic_turn : String
generic_turn = "generic_turn"

unfoldable pub is_known_access_method : String → Bool
is_known_access_method s = str_eq s turn_credentials || str_eq s webrtc_call_attach

unfoldable pub is_known_carrier_family : String → Bool
is_known_carrier_family s =
    str_eq s turn_datagram || str_eq s turn_dtls_overlay || str_eq s webrtc_datachannel

unfoldable pub is_known_engine_family : String → Bool
is_known_engine_family s =
    str_eq s wireguard_native
    || str_eq s custom_packet_overlay
    || str_eq s proxy_core_adapter
    || str_eq s trusttunnel_native

unfoldable pub is_known_host_adapter : String → Bool
is_known_host_adapter s =
    str_eq s android_vpn_service
    || str_eq s apple_network_extension
    || str_eq s windows_wintun
    || str_eq s linux_tun

unfoldable pub is_known_support_state : String → Bool
is_known_support_state s = str_eq s supported || str_eq s unavailable || str_eq s experimental

unfoldable pub is_known_endpoint_family : String → Bool
is_known_endpoint_family s =
    str_eq s turn_server || str_eq s webrtc_call_endpoint || str_eq s https_tunnel_server

unfoldable pub is_known_endpoint_role : String → Bool
is_known_endpoint_role s =
    str_eq s turn_dtls_custom_overlay
    || str_eq s wireguard_raw_datagram
    || str_eq s udp_protocol_multiplexer

unfoldable pub is_known_ingress_protocol : String → Bool
is_known_ingress_protocol s =
    str_eq s dtls_custom_overlay
    || str_eq s raw_wireguard_datagram
    || str_eq s udp_protocol_multiplexer

unfoldable pub is_known_ingress_isolation : String → Bool
is_known_ingress_isolation s = str_eq s dedicated || str_eq s mux_backed

unfoldable pub is_known_profile_kind : String → Bool
is_known_profile_kind s = str_eq s wireguard_native_v1

abbrev pub access_methods_of : String → List String
access_methods_of family = if str_eq family generic_turn then turn_credentials ∷ [] else []

unfoldable pub adapter_for_mode : String → String
adapter_for_mode mode =
    if str_eq mode "android_vpn_service"
    then android_vpn_service
    else if str_eq mode "apple_network_extension"
    then apple_network_extension
    else if str_eq mode "windows_wintun"
    then windows_wintun
    else if str_eq mode "linux_tun"
    then linux_tun
    else ""

unfoldable pub protocol_for_role : String → String
protocol_for_role role =
    if str_eq role turn_dtls_custom_overlay
    then dtls_custom_overlay
    else if str_eq role wireguard_raw_datagram
    then raw_wireguard_datagram
    else if str_eq role udp_protocol_multiplexer
    then udp_protocol_multiplexer
    else ""

abbrev pub overlay_descriptor : RuntimeExecutionPlanDescriptor
overlay_descriptor = record {
  plan = record {
    access_method = turn_credentials;
    carrier_family = turn_dtls_overlay;
    engine_family = custom_packet_overlay;
    host_adapter = "";
  };
  support_state = supported;
  remote_endpoint_family = turn_server;
  remote_endpoint_role = turn_dtls_custom_overlay;
  is_default = true;
  requires_capability = "";
  required_transport_profile_kinds = [];
  message = "";
}

abbrev pub tunnel_plans : List PlatformTunnelCapability → List RuntimeExecutionPlanDescriptor
tunnel_plans [] = []
tunnel_plans (c ∷ cs) = c.execution_plans ++ tunnel_plans cs

unfoldable pub plans_for_action :
    (action family : String) → List PlatformTunnelCapability → List RuntimeExecutionPlanDescriptor
plans_for_action action family tunnels =
    if not (str_eq action start_on_this_device) || not (str_eq family generic_turn)
    then []
    else overlay_descriptor ∷ tunnel_plans tunnels

abbrev pub wireguard_descriptor : (adapter state message : String) → RuntimeExecutionPlanDescriptor
wireguard_descriptor adapter state message = record {
  plan = record {
    access_method = turn_credentials;
    carrier_family = turn_datagram;
    engine_family = wireguard_native;
    host_adapter = adapter;
  };
  support_state = state;
  remote_endpoint_family = turn_server;
  remote_endpoint_role = wireguard_raw_datagram;
  is_default = true;
  requires_capability = "";
  required_transport_profile_kinds = wireguard_native_v1 ∷ [];
  message = message;
}

unfoldable pub default_plans : PlatformTunnelCapability → List RuntimeExecutionPlanDescriptor
unfolding adapter_for_mode trim_space
default_plans c =
    let adapter = adapter_for_mode c.mode in
    let state = if c.available then supported else unavailable in
    if is_empty adapter then [] else wireguard_descriptor adapter state (trim_space c.message) ∷ []

pub data MatrixError : Type 0 where
  unknown_access_method unknown_carrier_family unknown_engine_family : String → MatrixError
  unknown_host_adapter unknown_support_state unknown_endpoint_family : String → MatrixError
  unknown_endpoint_role unknown_profile_kind unknown_protocol : String → MatrixError
  unknown_isolation : String → MatrixError
  overlay_adapter wireguard_support : String → MatrixError
  overlay_family overlay_role overlay_support wireguard_adapter : MatrixError
  wireguard_family datachannel_capability datachannel_support : MatrixError
  datachannel_family foreign_capability foreign_support address_missing : MatrixError
  wireguard_role : (role protocol : String) → MatrixError
  not_in_matrix : RuntimeExecutionPlan → MatrixError
  role_protocol role_isolation : (role found : String) → MatrixError

unfoldable pub validate_plan : RuntimeExecutionPlan → Result MatrixError (Unit {0})
unfolding is_known_access_method is_known_carrier_family is_known_engine_family
    is_known_host_adapter is_blank
validate_plan p =
    guard (is_known_access_method p.access_method) (unknown_access_method p.access_method)
    >> (guard (is_known_carrier_family p.carrier_family) (unknown_carrier_family p.carrier_family)
        >> (guard (is_known_engine_family p.engine_family) (unknown_engine_family p.engine_family)
            >> guard (is_blank p.host_adapter || is_known_host_adapter p.host_adapter)
                (unknown_host_adapter p.host_adapter)))

unfoldable pub validate_kinds : List String → Result MatrixError (Unit {0})
unfolding is_known_profile_kind
validate_kinds [] = ok tt
validate_kinds (k ∷ ks) =
    guard (is_known_profile_kind k) (unknown_profile_kind k) >> validate_kinds ks

abbrev pub is_overlay_plan : RuntimeExecutionPlan → Bool
is_overlay_plan p =
    str_eq p.access_method turn_credentials
    && str_eq p.carrier_family turn_dtls_overlay
    && str_eq p.engine_family custom_packet_overlay

abbrev pub is_wireguard_plan : RuntimeExecutionPlan → Bool
is_wireguard_plan p =
    str_eq p.access_method turn_credentials
    && str_eq p.carrier_family turn_datagram
    && str_eq p.engine_family wireguard_native

abbrev pub is_datachannel_plan : RuntimeExecutionPlan → Bool
is_datachannel_plan p =
    str_eq p.access_method webrtc_call_attach && str_eq p.carrier_family webrtc_datachannel

abbrev pub is_foreign_plan : RuntimeExecutionPlan → Bool
is_foreign_plan p =
    str_eq p.engine_family proxy_core_adapter || str_eq p.engine_family trusttunnel_native

unfoldable pub validate_overlay : RuntimeExecutionPlanDescriptor → Result MatrixError (Unit {0})
unfolding is_blank
validate_overlay d =
    guard (is_blank d.plan.host_adapter) (overlay_adapter d.plan.host_adapter)
    >> (guard (str_eq d.remote_endpoint_family turn_server) overlay_family
        >> (guard (str_eq d.remote_endpoint_role turn_dtls_custom_overlay) overlay_role
            >> guard (str_eq d.support_state supported) overlay_support))

unfoldable pub validate_wireguard : RuntimeExecutionPlanDescriptor → Result MatrixError (Unit {0})
unfolding is_known_host_adapter protocol_for_role
validate_wireguard d =
    guard (is_known_host_adapter d.plan.host_adapter) wireguard_adapter
    >> (guard (str_eq d.remote_endpoint_family turn_server) wireguard_family
        >> (guard
              (str_eq d.remote_endpoint_role wireguard_raw_datagram
                || str_eq d.remote_endpoint_role udp_protocol_multiplexer)
              (wireguard_role d.remote_endpoint_role (protocol_for_role d.remote_endpoint_role))
            >> guard (str_eq d.support_state supported || str_eq d.support_state unavailable)
                (wireguard_support d.support_state)))

unfoldable pub validate_datachannel : RuntimeExecutionPlanDescriptor → Result MatrixError (Unit {0})
validate_datachannel d =
    guard (str_eq d.requires_capability capability_experimental_webrtc_datachannel)
      datachannel_capability
    >> (guard (str_eq d.support_state experimental) datachannel_support
        >> guard (not (str_eq d.remote_endpoint_family turn_server)) datachannel_family)

unfoldable pub validate_foreign : RuntimeExecutionPlanDescriptor → Result MatrixError (Unit {0})
validate_foreign d =
    guard (str_eq d.requires_capability capability_foreign_core) foreign_capability
    >> guard (not (str_eq d.support_state supported)) foreign_support

-- The switch at the end of `validateRuntimeExecutionPlanDescriptor`.
unfoldable pub validate_row : RuntimeExecutionPlanDescriptor → Result MatrixError (Unit {0})
unfolding validate_overlay validate_wireguard validate_datachannel validate_foreign
validate_row d =
    if is_overlay_plan d.plan
    then validate_overlay d
    else if is_wireguard_plan d.plan
    then validate_wireguard d
    else if is_datachannel_plan d.plan
    then validate_datachannel d
    else if is_foreign_plan d.plan
    then validate_foreign d
    else err (not_in_matrix d.plan)

abbrev pub role_is_fine : RuntimeExecutionPlanDescriptor → Bool
role_is_fine d =
    if str_eq d.plan.access_method turn_credentials
    then is_known_endpoint_role d.remote_endpoint_role
    else is_blank d.remote_endpoint_role || is_known_endpoint_role d.remote_endpoint_role

unfoldable pub validate_descriptor : RuntimeExecutionPlanDescriptor → Result MatrixError (Unit {0})
unfolding validate_plan validate_kinds validate_row is_known_support_state is_known_endpoint_family
    is_known_endpoint_role is_blank
validate_descriptor d =
    validate_plan d.plan
    >> (guard (is_known_support_state d.support_state) (unknown_support_state d.support_state)
        >> (guard (is_known_endpoint_family d.remote_endpoint_family)
              (unknown_endpoint_family d.remote_endpoint_family)
            >> (guard (role_is_fine d) (unknown_endpoint_role d.remote_endpoint_role)
                >> (validate_kinds d.required_transport_profile_kinds >> validate_row d))))

-- What a role asks of the protocol and of the isolation.
abbrev pub require_role :
    (role protocol isolation : String)
    → RuntimeRemoteIngressDiagnostics
    → Result MatrixError (Unit {0})
require_role role protocol isolation d =
    guard (str_eq d.protocol protocol) (role_protocol role d.protocol)
    >> guard (str_eq d.isolation isolation) (role_isolation role d.isolation)

unfoldable pub validate_ingress_role :
    RuntimeRemoteIngressDiagnostics → Result MatrixError (Unit {0})
validate_ingress_role d =
    if str_eq d.endpoint_role turn_dtls_custom_overlay
    then require_role turn_dtls_custom_overlay dtls_custom_overlay dedicated d
    else if str_eq d.endpoint_role wireguard_raw_datagram
    then require_role wireguard_raw_datagram raw_wireguard_datagram dedicated d
    else if str_eq d.endpoint_role udp_protocol_multiplexer
    then require_role udp_protocol_multiplexer udp_protocol_multiplexer mux_backed d
    else ok tt

unfoldable pub validate_ingress_diagnostics :
    RuntimeRemoteIngressDiagnostics → Result MatrixError (Unit {0})
unfolding is_known_endpoint_family is_known_endpoint_role is_known_ingress_protocol
    is_known_ingress_isolation is_blank validate_ingress_role
validate_ingress_diagnostics d =
    guard (is_known_endpoint_family d.endpoint_family) (unknown_endpoint_family d.endpoint_family)
    >> (guard (is_known_endpoint_role d.endpoint_role) (unknown_endpoint_role d.endpoint_role)
        >> (guard (is_known_ingress_protocol d.protocol) (unknown_protocol d.protocol)
            >> (guard (is_known_ingress_isolation d.isolation) (unknown_isolation d.isolation)
                >> (guard (not (is_blank d.address)) address_missing >> validate_ingress_role d))))
