-- ===== src/ClientControl/Host/Resolutions/Export.antt =====
-- pkg/clientcontrol/resolution.go: what is made of a resolution that is resolved: the link that is
-- handed over, or the plan by which a session is started. The lease of a TURN datagram carrier and
-- the profile of the session are left out.
use Prim.Native.String.{String}
use text.Mathlib.Text.{◌==◌ as str_eq}
use vk_turn_proxy_go.Base.{
  ℕ, Bool, true, false, not, ◌&&◌, ◌||◌, List, [], ◌∷◌, Option, none, some, if◌then◌else◌,
}
use vk_turn_proxy_go.Base.Text.{is_blank, is_empty}
use vk_turn_proxy_go.Base.TextDict.{lookup}
use vk_turn_proxy_go.Base.Result.{Result, ok, err}
use vk_turn_proxy_go.ClientControl.Execution.{
  turn_credentials, turn_datagram, turn_dtls_overlay, wireguard_native, custom_packet_overlay,
  RuntimeExecutionPlan, RuntimeExecutionPlanDescriptor,
}
use vk_turn_proxy_go.ClientControl.Execution.Matrix.{start_on_this_device}
use vk_turn_proxy_go.ClientControl.Execution.Select.{
  PlanReply, plan_selected, plan_unsupported, plan_unavailable, select_descriptor,
}
use vk_turn_proxy_go.ClientControl.Artifacts.{export_handoff, ResolutionAction, ResolutionArtifact}
use vk_turn_proxy_go.ClientControl.Artifacts.Contract.{Library, format_link}
use vk_turn_proxy_go.ClientControl.Types.{ResolutionState, resolution_expired, Resolution}
use vk_turn_proxy_go.ClientControl.Host.{Host, ManagedResolution, publish_event}
use vk_turn_proxy_go.ClientControl.Host.Resolutions.{
  is_resolved, expire_resolution, expire_locked, tell_expiry,
}

pub record ExportResult : Type 0 where
  pub resolution_id : String
  pub link : String
  pub expires_at : ℕ
  pub expiry_source : String

-- The errors, `action_unavailable` being a `ResolutionActionError` about an unavailable action.
pub data ActionError : Type 0 where
  not_found expired not_transport_ready action_unavailable export_unavailable : ActionError

abbrev pub has_action : List ResolutionAction → String → Bool
has_action [] action = false
has_action (a ∷ more) action = str_eq a.id action || has_action more action

unfoldable pub supports_action : Option ResolutionArtifact → String → Bool
supports_action none action = false
supports_action (some a) action = has_action a.actions action

abbrev pub is_expired : ResolutionState → Bool
is_expired resolution_expired = true
is_expired state = false

-- The action on a resolution that is resolved and offers it.
unfoldable pub for_action {ℓ} :
    {A : Type ℓ} → String → Resolution → Result ActionError A → Result ActionError A
unfolding supports_action
for_action action s result =
    if is_expired s.state
    then err expired
    else if is_resolved s.state
    then if supports_action s.artifact action then result else err action_unavailable
    else err not_transport_ready

abbrev pub export_link : String → String → ℕ → Resolution → Result ActionError ExportResult
export_link payload link until s =
    let told : String → ExportResult = λ l. record {
      resolution_id = s.id;
      link = l;
      expires_at = until;
      expiry_source = s.export.expiry_source;
    } in
    if is_blank payload
    then if is_empty link then err export_unavailable else ok (told link)
    else ok (told payload)

abbrev pub export_until : Option ℕ → String → String → Resolution → Result ActionError ExportResult
export_until none payload link s = err export_unavailable
export_until (some until) payload link s =
    if s.export.supported then export_link payload link until s else err export_unavailable

abbrev pub find_action_plans :
    List ResolutionAction → String → Option RuntimeExecutionPlan → PlanReply
find_action_plans [] action none = plan_unavailable
find_action_plans [] action (some p) = plan_unsupported
find_action_plans (a ∷ more) action requested =
    let rest = find_action_plans more action requested in
    if str_eq a.id action then select_descriptor a.execution_plans requested else rest

unfoldable pub select_plan :
    Option ResolutionArtifact → String → Option RuntimeExecutionPlan → PlanReply
unfolding select_descriptor
select_plan none action none = plan_unavailable
select_plan none action (some p) = plan_unsupported
select_plan (some a) action requested = find_action_plans a.actions action requested

unfoldable pub is_host_plan : RuntimeExecutionPlan → Bool
unfolding is_blank
is_host_plan p =
    str_eq p.engine_family custom_packet_overlay
    && str_eq p.carrier_family turn_dtls_overlay
    && str_eq p.access_method turn_credentials
    && is_blank p.host_adapter

-- What `MaterializeResolutionWithPlan` does next: start a session over the link, ask for a lease, or
-- refuse the plan.
pub data Materialized : Type 0 where
  starts_session : (link : String) → Materialized
  needs_lease not_implemented : RuntimeExecutionPlanDescriptor → Materialized
  plan_refusal : PlanReply → Materialized

unfoldable pub is_strict_wireguard : RuntimeExecutionPlan → Bool
is_strict_wireguard p =
    str_eq p.access_method turn_credentials
    && str_eq p.carrier_family turn_datagram
    && str_eq p.engine_family wireguard_native
    && not (is_blank p.host_adapter)

unfoldable pub materialize_selected : PlanReply → (link : String) → Materialized
unfolding is_host_plan is_strict_wireguard
materialize_selected (plan_selected d) link =
    if is_host_plan d.plan
    then starts_session link
    else if is_strict_wireguard d.plan
    then needs_lease d
    else not_implemented d
materialize_selected reply link = plan_refusal reply

module _ (lib : Library) where
  unfoldable pub export_of : ManagedResolution → Result ActionError ExportResult
  unfolding for_action format_link is_blank
  export_of m = for_action export_handoff m.snapshot (
      export_until m.snapshot.export.expires_at m.remote_export_payload
        (format_link lib m.secret.credentials) m.snapshot)

  unfoldable pub materialize_of :
      ManagedResolution → Option RuntimeExecutionPlan → Result ActionError Materialized
  unfolding for_action format_link select_plan materialize_selected
  materialize_of m requested = for_action start_on_this_device m.snapshot (
      ok (
        materialize_selected (select_plan m.snapshot.artifact start_on_this_device requested)
          (format_link lib m.secret.credentials)))

module _ (lib : Library) (new_id : ℕ → String) where
  abbrev pub export_found :
      Option ManagedResolution → String → ℕ → Host → Result ActionError ExportResult × Host
  export_found none id now h = (err not_found, h)
  export_found (some m) id now h = (
    export_of lib (expire_resolution now h.history_limit m),
    tell_expiry new_id now m (expire_locked id now h),
  )

  -- `ExportResolution`.
  unfoldable pub export_resolution : String → ℕ → Host → Result ActionError ExportResult × Host
  unfolding lookup expire_locked expire_resolution publish_event export_of
  export_resolution id now h = export_found (lookup id h.resolutions) id now h

  abbrev pub materialize_found :
      Option ManagedResolution
      → String
      → ℕ
      → Option RuntimeExecutionPlan
      → Host
      → Result ActionError Materialized × Host
  materialize_found none id now requested h = (err not_found, h)
  materialize_found (some m) id now requested h = (
    materialize_of lib (expire_resolution now h.history_limit m) requested,
    tell_expiry new_id now m (expire_locked id now h),
  )

  -- `MaterializeResolutionWithPlan`, up to the start of the session.
  unfoldable pub materialize_resolution :
      String → ℕ → Option RuntimeExecutionPlan → Host → Result ActionError Materialized × Host
  unfolding lookup expire_locked expire_resolution publish_event materialize_of
  materialize_resolution id now requested h =
      materialize_found (lookup id h.resolutions) id now requested h
