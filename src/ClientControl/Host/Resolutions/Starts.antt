-- ===== src/ClientControl/Host/Resolutions/Starts.antt =====
-- What a session is started from when a resolution is materialized.
use Prim.Native.String.{String}
use text.Mathlib.Text.{◌==◌ as str_eq}
use text.Mathlib.TextEquality.{eq_iff}
use vk_turn_proxy_go.Base.{
  ℕ, ◌≡◌, refl, sym, subst, true, List, [], ◌∷◌, Option, none, some, arith, if_intro, Among,
  at_head, in_tail,
}
use vk_turn_proxy_go.Base.Text.{is_blank}
use vk_turn_proxy_go.Base.TextDict.{lookup}
use vk_turn_proxy_go.Base.Result.{ok, ok-injective}
use vk_turn_proxy_go.ClientControl.Execution.{
  RuntimeExecutionPlan, RuntimeExecutionPlanDescriptor, custom_packet_overlay, turn_dtls_overlay,
  turn_credentials,
}
use vk_turn_proxy_go.ClientControl.Execution.Matrix.{start_on_this_device}
use vk_turn_proxy_go.ClientControl.Execution.Select.{
  PlanReply, plan_selected, plan_refused, selection_required, plan_unsupported, plan_unavailable,
  nil_plan,
}
use vk_turn_proxy_go.ClientControl.Execution.Chosen.{IsChosen, select_descriptor-IsChosen}
use vk_turn_proxy_go.ClientControl.Artifacts.{ResolutionAction, ResolutionArtifact}
use vk_turn_proxy_go.ClientControl.Artifacts.Contract.{Library, format_link}
use vk_turn_proxy_go.ClientControl.Host.{Host, ManagedResolution}
use vk_turn_proxy_go.ClientControl.Host.Resolutions.{expire_resolution}
use vk_turn_proxy_go.ClientControl.Host.Resolutions.Export.{
  select_plan, find_action_plans, is_host_plan, is_strict_wireguard, Materialized, starts_session,
  materialize_selected, materialize_of, materialize_found, materialize_resolution,
}
use vk_turn_proxy_go.ClientControl.Host.Resolutions.Exports.{IsOpen, for_action-IsOpen}

-- The DTLS overlay over TURN credentials, without a host adapter.
abbrev pub IsHostPlan : RuntimeExecutionPlan → Type 0
IsHostPlan p =
    (p.access_method ≡ turn_credentials)
    × (p.carrier_family ≡ turn_dtls_overlay)
    × (p.engine_family ≡ custom_packet_overlay)
    × (is_blank p.host_adapter ≡ true)

is_host_plan-IsHostPlan : (p : RuntimeExecutionPlan) → is_host_plan p ≡ true → IsHostPlan p
unfolding is_host_plan
is_host_plan-IsHostPlan p h = ground (
  arith,
  eq_iff p.access_method turn_credentials,
  eq_iff p.carrier_family turn_dtls_overlay,
  eq_iff p.engine_family custom_packet_overlay,
)

-- One of the plans that an action of the artifact has, and chosen among these.
abbrev pub IsPlanIn :
    String
    → Option RuntimeExecutionPlan
    → List ResolutionAction
    → RuntimeExecutionPlanDescriptor
    → Type 0
IsPlanIn action requested actions d =
    (a : ResolutionAction) × Among a actions
    × (a.id ≡ action)
    × IsChosen requested d a.execution_plans

find_action_plans-IsPlanIn :
    (actions : List ResolutionAction) (action : String) (requested : Option RuntimeExecutionPlan)
    (d : RuntimeExecutionPlanDescriptor)
    → find_action_plans actions action requested ≡ plan_selected d
    → IsPlanIn action requested actions d
find_action_plans-IsPlanIn [] action none d = λ h. cc
find_action_plans-IsPlanIn [] action (some p) d = λ h. cc
find_action_plans-IsPlanIn (x ∷ more) action requested d =
    if_intro (λ r. r ≡ plan_selected d → IsPlanIn action requested (x ∷ more) d)
      (str_eq x.id action) _ _
      (λ e h. (
        x,
        at_head refl,
        (eq_iff x.id action).0 e,
        select_descriptor-IsChosen x.execution_plans requested d h,
      ))
      (λ _ h.
        let (a, m, e, c) = find_action_plans-IsPlanIn more action requested d h in
        (a, in_tail m, e, c))

select_plan-IsPlanIn :
    (o : Option ResolutionArtifact) (action : String) (requested : Option RuntimeExecutionPlan)
    (d : RuntimeExecutionPlanDescriptor)
    → select_plan o action requested ≡ plan_selected d
    → (x : ResolutionArtifact) × (o ≡ some x) × IsPlanIn action requested x.actions d
unfolding select_plan
select_plan-IsPlanIn none action none d h = cc
select_plan-IsPlanIn none action (some p) d h = cc
select_plan-IsPlanIn (some x) action requested d h =
    (x, refl, find_action_plans-IsPlanIn x.actions action requested d h)

abbrev Starts : PlanReply → (made link : String) → Type 0
Starts reply made link =
    (link ≡ made)
    × ((d : RuntimeExecutionPlanDescriptor) × (reply ≡ plan_selected d) × IsHostPlan d.plan)

materialize_selected-Starts :
    (reply : PlanReply) (made link : String)
    → materialize_selected reply made ≡ starts_session link
    → Starts reply made link
unfolding materialize_selected
materialize_selected-Starts (plan_selected d) made link =
    let P : Materialized → Type 0 =
      λ x. x ≡ starts_session link → Starts (plan_selected d) made link in
    if_intro P (is_host_plan d.plan) _ _
      (λ p h. (sym (cc h), (d, refl, is_host_plan-IsHostPlan d.plan p)))
      (λ _. if_intro P (is_strict_wireguard d.plan) _ _ (λ _ h. cc) (λ _ h. cc))
materialize_selected-Starts (plan_refused d message) made link = λ h. cc
materialize_selected-Starts selection_required made link = λ h. cc
materialize_selected-Starts plan_unsupported made link = λ h. cc
materialize_selected-Starts plan_unavailable made link = λ h. cc
materialize_selected-Starts nil_plan made link = λ h. cc

module _ (lib : Library) (new_id : ℕ → String) where
  abbrev pub StartsFrom : ManagedResolution → ℕ → Option RuntimeExecutionPlan → String → Type 0
  StartsFrom m now requested link =
      IsOpen start_on_this_device now m.snapshot
      × (link ≡ format_link lib m.secret.credentials)
      × ((x : ResolutionArtifact) × (d : RuntimeExecutionPlanDescriptor) × (m.snapshot.artifact
            ≡ some x)
          × IsPlanIn start_on_this_device requested x.actions d
          × IsHostPlan d.plan)

  materialize_of-StartsFrom :
      (now limit : ℕ) (m : ManagedResolution) (requested : Option RuntimeExecutionPlan)
      (link : String)
      → materialize_of lib (expire_resolution now limit m) requested ≡ ok (starts_session link)
      → StartsFrom m now requested link
  unfolding materialize_of
  materialize_of-StartsFrom now limit m requested link h =
      let answer : ManagedResolution → Materialized = λ k.
        materialize_selected (select_plan k.snapshot.artifact start_on_this_device requested)
          (format_link lib k.secret.credentials) in
      let (gate, same, got) =
        for_action-IsOpen start_on_this_device (starts_session link) now limit m
          (ok (answer (expire_resolution now limit m))) h in
      let (made, (d, chosen, host)) =
        materialize_selected-Starts (select_plan m.snapshot.artifact start_on_this_device requested)
          (format_link lib m.secret.credentials) link
          (subst (λ (k : ManagedResolution). answer k ≡ starts_session link) same
            (ok-injective got)) in
      let (x, e, p) =
        select_plan-IsPlanIn m.snapshot.artifact start_on_this_device requested d chosen in
      (gate, made, (x, d, e, p, host))

  materialize_found-StartsFrom :
      (o : Option ManagedResolution) (id : String) (now : ℕ)
      (requested : Option RuntimeExecutionPlan) (h : Host) (link : String)
      → (materialize_found lib new_id o id now requested h).0 ≡ ok (starts_session link)
      → (m : ManagedResolution) × (o ≡ some m) × StartsFrom m now requested link
  materialize_found-StartsFrom none id now requested h link e = cc
  materialize_found-StartsFrom (some m) id now requested h link e =
      (m, refl, materialize_of-StartsFrom now h.history_limit m requested link e)

  -- Where MaterializeResolutionWithPlan goes on to start a session, the host has the resolution, it is
  -- resolved, offers a start on this device and its export has not ended; the link is made of its
  -- credentials; and the start has a plan that is supported, the one that is asked for or, where none
  -- is, the one that is left, and this plan is the DTLS overlay over TURN credentials with
  -- no host adapter.
  pub materialize_resolution-StartsFrom :
      (id : String) (now : ℕ) (requested : Option RuntimeExecutionPlan) (h : Host) (link : String)
      → (materialize_resolution lib new_id id now requested h).0 ≡ ok (starts_session link)
      → (m : ManagedResolution) × (lookup id h.resolutions ≡ some m)
        × StartsFrom m now requested link
  unfolding materialize_resolution
  materialize_resolution-StartsFrom id now requested h link e =
      materialize_found-StartsFrom (lookup id h.resolutions) id now requested h link e
