-- ===== src/ClientControl/Execution/Examples.antt =====
-- A host with a tunnel that is there, and plans for it.
use vk_turn_proxy_go.Base.{◌≡◌, refl, true, [], ◌∷◌, none, some, ◌⊎◌}
use vk_turn_proxy_go.Base.Result.{ok}
use vk_turn_proxy_go.ClientControl.Execution.{
  supported, turn_server, turn_credentials, PlatformTunnelCapability, linux_tun,
  RuntimeExecutionPlanDescriptor,
}
use vk_turn_proxy_go.ClientControl.Execution.Matrix.{
  validate_descriptor, plans_for_action, overlay_descriptor, wireguard_descriptor,
  start_on_this_device, generic_turn,
}
use vk_turn_proxy_go.ClientControl.Execution.Select.{selection_required, select_descriptor}
use vk_turn_proxy_go.ClientControl.Execution.Choice.{
  choose, overlay_unless, usable_defaults, select_descriptor-choose,
  select_descriptor-plans_for_action,
}
use vk_turn_proxy_go.ClientControl.Execution.Rows.{
  IsOverlayRow, IsWireguardRow, validate_descriptor-IsStartable,
}

abbrev wireguard : RuntimeExecutionPlanDescriptor
wireguard = wireguard_descriptor linux_tun supported ""

abbrev tunnel : PlatformTunnelCapability
tunnel = record {
  mode = "linux_tun";
  available = true;
  execution_plans = wireguard ∷ [];
  message = "";
}

select_descriptor-choose_example :
    select_descriptor (overlay_descriptor ∷ wireguard ∷ []) (some wireguard.plan)
    ≡ choose (overlay_descriptor ∷ wireguard ∷ []) (some wireguard.plan)
select_descriptor-choose_example =
    select_descriptor-choose (overlay_descriptor ∷ wireguard ∷ []) (some wireguard.plan)

two_defaults : select_descriptor (overlay_descriptor ∷ wireguard ∷ []) none ≡ selection_required
unfolding select_descriptor
two_defaults = refl

select_descriptor-plans_for_action_example :
    select_descriptor (plans_for_action start_on_this_device generic_turn (tunnel ∷ [])) none
    ≡ overlay_unless (usable_defaults (tunnel ∷ []))
select_descriptor-plans_for_action_example = select_descriptor-plans_for_action (tunnel ∷ [])

wireguard_is_accepted : validate_descriptor wireguard ≡ ok tt
unfolding validate_descriptor
wireguard_is_accepted = refl

validate_descriptor-IsStartable_example :
    (wireguard.plan.access_method ≡ turn_credentials)
    × (wireguard.remote_endpoint_family ≡ turn_server)
    × (IsOverlayRow wireguard ⊎ IsWireguardRow wireguard)
validate_descriptor-IsStartable_example =
    validate_descriptor-IsStartable wireguard wireguard_is_accepted refl
