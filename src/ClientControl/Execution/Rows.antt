-- ===== src/ClientControl/Execution/Rows.antt =====
-- What the compatibility matrix lets through.
use Prim.Native.String.{String}
use text.Mathlib.Text.{◌==◌ as str_eq}
use text.Mathlib.TextEquality.{eq_iff}
use vk_turn_proxy_go.Base.{
  ◌≡◌, ◌↔◌, refl, Bool, true, false, ◌&&◌, ◌||◌, [], ◌∷◌, if◌then◌else◌, ◌⊎◌, inl, inr, All,
  if_intro,
}
use vk_turn_proxy_go.Base.Result.{
  Result, ok, guard, both_ok, both_iff, guard_iff, guard-not_iff, guard_then,
}
use vk_turn_proxy_go.ClientControl.Execution.{
  supported, turn_server, turn_dtls_custom_overlay, RuntimeExecutionPlanDescriptor,
  PlatformTunnelCapability, turn_credentials, custom_packet_overlay, wireguard_native,
  turn_dtls_overlay, turn_datagram, unavailable, experimental, android_vpn_service,
  apple_network_extension, windows_wintun, linux_tun, wireguard_raw_datagram,
  udp_protocol_multiplexer,
}
use vk_turn_proxy_go.ClientControl.Execution.Matrix.{
  MatrixError, validate_descriptor, validate_row, validate_overlay, validate_wireguard,
  validate_datachannel, validate_foreign, default_plans, is_known_host_adapter, is_overlay_plan,
  is_wireguard_plan, is_datachannel_plan, is_foreign_plan, adapter_for_mode, validate_plan,
  validate_kinds, unknown_support_state, unknown_endpoint_family, unknown_endpoint_role,
  wireguard_descriptor, capability_foreign_core, capability_experimental_webrtc_datachannel,
}
use vk_turn_proxy_go.Base.Text.{is_blank, is_empty, trim_space}

-- The DTLS overlay, without a host adapter.
abbrev pub IsOverlayRow : RuntimeExecutionPlanDescriptor → Type 0
IsOverlayRow d =
    (d.plan.carrier_family ≡ turn_dtls_overlay)
    × (d.plan.engine_family ≡ custom_packet_overlay)
    × (is_blank d.plan.host_adapter ≡ true)
    × (d.remote_endpoint_role ≡ turn_dtls_custom_overlay)

-- WireGuard over TURN datagrams, by an adapter of the host.
abbrev pub IsWireguardRow : RuntimeExecutionPlanDescriptor → Type 0
IsWireguardRow d =
    (d.plan.carrier_family ≡ turn_datagram)
    × (d.plan.engine_family ≡ wireguard_native)
    × (is_known_host_adapter d.plan.host_adapter ≡ true)

abbrev pub IsStartable : RuntimeExecutionPlanDescriptor → Type 0
IsStartable d =
    (d.plan.access_method ≡ turn_credentials)
    × (d.remote_endpoint_family ≡ turn_server)
    × (IsOverlayRow d ⊎ IsWireguardRow d)

abbrev Starts : RuntimeExecutionPlanDescriptor → Result MatrixError (Unit {0}) → Type 0
Starts d r = r ≡ ok tt → IsStartable d

and_true3 : (a b c : Bool) → (a && b && c) ≡ true → (a ≡ true) × (b ≡ true) × (c ≡ true)
and_true3 true true c h = (refl, refl, h)
and_true3 true false c h = cc
and_true3 false b c h = cc

validate_overlay_iff :
    (d : RuntimeExecutionPlanDescriptor)
    → (validate_overlay d ≡ ok tt) ↔ (
        (is_blank d.plan.host_adapter ≡ true)
        × ((d.remote_endpoint_family ≡ turn_server)
            × ((d.remote_endpoint_role ≡ turn_dtls_custom_overlay)
                × (d.support_state ≡ supported))))
unfolding validate_overlay
validate_overlay_iff d = both_iff _ _ (guard_iff _ _) (
    both_iff _ _ (guard_then _ _ (eq_iff d.remote_endpoint_family turn_server)) (
      both_iff _ _ (guard_then _ _ (eq_iff d.remote_endpoint_role turn_dtls_custom_overlay))
        (guard_then _ _ (eq_iff d.support_state supported))))

validate_wireguard_iff :
    (d : RuntimeExecutionPlanDescriptor)
    → (validate_wireguard d ≡ ok tt) ↔ (
        (is_known_host_adapter d.plan.host_adapter ≡ true)
        × ((d.remote_endpoint_family ≡ turn_server)
            × (((str_eq d.remote_endpoint_role wireguard_raw_datagram
                    || str_eq d.remote_endpoint_role udp_protocol_multiplexer)
                  ≡ true)
                × ((str_eq d.support_state supported || str_eq d.support_state unavailable)
                    ≡ true))))
unfolding validate_wireguard
validate_wireguard_iff d = both_iff _ _ (guard_iff _ _) (
    both_iff _ _ (guard_then _ _ (eq_iff d.remote_endpoint_family turn_server))
      (both_iff _ _ (guard_iff _ _) (guard_iff _ _)))

validate_datachannel_iff :
    (d : RuntimeExecutionPlanDescriptor)
    → (validate_datachannel d ≡ ok tt) ↔ (
        (d.requires_capability ≡ capability_experimental_webrtc_datachannel)
        × ((d.support_state ≡ experimental)
            × (str_eq d.remote_endpoint_family turn_server ≡ false)))
unfolding validate_datachannel
validate_datachannel_iff d =
    both_iff _ _
      (guard_then _ _ (eq_iff d.requires_capability capability_experimental_webrtc_datachannel))
      (both_iff _ _ (guard_then _ _ (eq_iff d.support_state experimental)) (guard-not_iff _ _))

validate_foreign_iff :
    (d : RuntimeExecutionPlanDescriptor)
    → (validate_foreign d ≡ ok tt) ↔ (
        (d.requires_capability ≡ capability_foreign_core)
        × (str_eq d.support_state supported ≡ false))
unfolding validate_foreign
validate_foreign_iff d =
    both_iff _ _ (guard_then _ _ (eq_iff d.requires_capability capability_foreign_core))
      (guard-not_iff _ _)

validate_overlay-IsStartable :
    (d : RuntimeExecutionPlanDescriptor)
    → is_overlay_plan d.plan ≡ true
    → Starts d (validate_overlay d)
validate_overlay-IsStartable d p h =
    let (a, (f, (r, _))) = (validate_overlay_iff d).0 h in
    let (m, c, e) = and_true3 _ _ _ p in
    ((eq_iff _ _).0 m, f, inl ((eq_iff _ _).0 c, (eq_iff _ _).0 e, a, r))

validate_wireguard-IsStartable :
    (d : RuntimeExecutionPlanDescriptor)
    → is_wireguard_plan d.plan ≡ true
    → Starts d (validate_wireguard d)
validate_wireguard-IsStartable d p h =
    let (a, (f, _)) = (validate_wireguard_iff d).0 h in
    let (m, c, e) = and_true3 _ _ _ p in
    ((eq_iff _ _).0 m, f, inr ((eq_iff _ _).0 c, (eq_iff _ _).0 e, a))

validate_row-IsStartable :
    (d : RuntimeExecutionPlanDescriptor) → d.support_state ≡ supported → Starts d (validate_row d)
unfolding validate_row
validate_row-IsStartable d s =
    if_intro (Starts d) (is_overlay_plan d.plan) _ _ (λ p. validate_overlay-IsStartable d p)
      (λ _.
        if_intro (Starts d) (is_wireguard_plan d.plan) _ _ (λ p. validate_wireguard-IsStartable d p)
          (λ _.
            if_intro (Starts d) (is_datachannel_plan d.plan) _ _
              (λ _ h. let x = rw s at ((validate_datachannel_iff d).0 h).1.0 in cc)
              (λ _.
                if_intro (Starts d) (is_foreign_plan d.plan) _ _
                  (λ _ h. let x = rw s at ((validate_foreign_iff d).0 h).1 in cc) (λ _ h. cc))))

-- A descriptor that is valid and supported takes TURN credentials to a TURN server, and is of the DTLS
-- overlay, with no host adapter, or of WireGuard, with one that is known.
pub validate_descriptor-IsStartable :
    (d : RuntimeExecutionPlanDescriptor)
    → validate_descriptor d ≡ ok tt
    → d.support_state ≡ supported
    → IsStartable d
unfolding validate_descriptor
validate_descriptor-IsStartable d h s =
    let (_, a) = both_ok (validate_plan d.plan) _ h in
    let (_, b) = both_ok (guard _ (unknown_support_state d.support_state)) _ a in
    let (_, c) = both_ok (guard _ (unknown_endpoint_family d.remote_endpoint_family)) _ b in
    let (_, e) = both_ok (guard _ (unknown_endpoint_role d.remote_endpoint_role)) _ c in
    let (_, r) = both_ok (validate_kinds d.required_transport_profile_kinds) _ e in
    validate_row-IsStartable d s r

abbrev pub IsAccepted : RuntimeExecutionPlanDescriptor → Type 0
IsAccepted d = validate_descriptor d ≡ ok tt

abbrev AllAccepted : String → PlatformTunnelCapability → Type 0
AllAccepted adapter c = All IsAccepted (
    if is_empty adapter
    then []
    else wireguard_descriptor adapter (if c.available then supported else unavailable)
        (trim_space c.message)
      ∷ [])

wireguard_descriptor-AllAccepted :
    (c : PlatformTunnelCapability) (b : Bool)
    → AllAccepted android_vpn_service (record c { available = b })
      × AllAccepted apple_network_extension (record c { available = b })
      × AllAccepted windows_wintun (record c { available = b })
      × AllAccepted linux_tun (record c { available = b })
unfolding validate_descriptor
wireguard_descriptor-AllAccepted c true = ((refl, tt), (refl, tt), (refl, tt), (refl, tt))
wireguard_descriptor-AllAccepted c false = ((refl, tt), (refl, tt), (refl, tt), (refl, tt))

-- The plans that a platform tunnel has by default are all valid.
pub default_plans-IsAccepted : (c : PlatformTunnelCapability) → All IsAccepted (default_plans c)
unfolding default_plans adapter_for_mode
default_plans-IsAccepted c =
    let (a, n, w, l) = wireguard_descriptor-AllAccepted c c.available in
    if_intro (λ x. AllAccepted x c) (str_eq c.mode "android_vpn_service") _ _ (λ _. a)
      (λ _.
        if_intro (λ x. AllAccepted x c) (str_eq c.mode "apple_network_extension") _ _ (λ _. n)
          (λ _.
            if_intro (λ x. AllAccepted x c) (str_eq c.mode "windows_wintun") _ _ (λ _. w)
              (λ _.
                if_intro (λ x. AllAccepted x c) (str_eq c.mode "linux_tun") _ _ (λ _. l)
                  (λ _. tt))))
