-- ===== src/ClientControl/Execution/Select.antt =====
-- pkg/clientcontrol/runtime_execution_matrix.go: how one of the plans of an action is chosen.
use Prim.Native.String.{String}
use text.Mathlib.Text.{◌==◌ as str_eq}
use vk_turn_proxy_go.Base.{
  ℕ, ◌+◌, Bool, true, false, List, [], ◌∷◌, Option, none, some, if◌then◌else◌, ◌==◌, ltb,
}
use vk_turn_proxy_go.Base.Text.{is_blank}
use vk_turn_proxy_go.ClientControl.Execution.{
  supported, unavailable, experimental, RuntimeExecutionPlan, RuntimeExecutionPlanDescriptor,
  plan_equals,
}

-- A plan, or one that cannot be used with what is told of it, or one of the three errors. `nil_plan`
-- is neither a plan nor an error.
pub data PlanReply : Type 0 where
  plan_selected : RuntimeExecutionPlanDescriptor → PlanReply
  plan_refused : RuntimeExecutionPlanDescriptor → (message : String) → PlanReply
  selection_required plan_unsupported plan_unavailable nil_plan : PlanReply

abbrev pub is_supported : RuntimeExecutionPlanDescriptor → Bool
is_supported d = str_eq d.support_state supported

unfoldable pub unavailable_message : RuntimeExecutionPlanDescriptor → String
unfolding is_blank
unavailable_message d =
    if is_blank d.message
    then if str_eq d.support_state experimental
      then "requested runtime execution plan is experimental and not startable on this host"
      else if str_eq d.support_state unavailable
      then "requested runtime execution plan is unavailable on this host"
      else "requested runtime execution plan is unavailable"
    else d.message

-- The loop for a plan that is asked for.
unfoldable pub select_requested :
    RuntimeExecutionPlan → List RuntimeExecutionPlanDescriptor → PlanReply
unfolding plan_equals unavailable_message
select_requested p [] = plan_unsupported
select_requested p (d ∷ ds) =
    let rest = select_requested p ds in
    if plan_equals d.plan p
    then if is_supported d then plan_selected d else plan_refused d (unavailable_message d)
    else rest

-- What the loop over all plans counts.
pub record Counts : Type 0 where
  pub default_plan : Option RuntimeExecutionPlanDescriptor
  pub default_supported : ℕ
  pub supported_plans : ℕ

abbrev pub or_first :
    Option RuntimeExecutionPlanDescriptor
    → RuntimeExecutionPlanDescriptor
    → Option RuntimeExecutionPlanDescriptor
or_first none d = some d
or_first (some e) d = some e

-- A plan that is supported or not, and the default or not.
abbrev pub count_as : (usable by_default : Bool) → RuntimeExecutionPlanDescriptor → Counts → Counts
count_as true true d c = record {
  default_plan = or_first c.default_plan d;
  default_supported = c.default_supported + 1;
  supported_plans = c.supported_plans + 1;
}
count_as true false d c = record c { supported_plans = c.supported_plans + 1 }
count_as false by_default d c = c

abbrev pub count_round : RuntimeExecutionPlanDescriptor → Counts → Counts
count_round d c = count_as (is_supported d) d.is_default d c

unfoldable pub count_plans : List RuntimeExecutionPlanDescriptor → Counts → Counts
count_plans [] c = c
count_plans (d ∷ ds) c = count_plans ds (count_round d c)

unfoldable pub first_supported : List RuntimeExecutionPlanDescriptor → PlanReply
first_supported [] = selection_required
first_supported (d ∷ ds) =
    let rest = first_supported ds in if is_supported d then plan_selected d else rest

abbrev pub of_pointer : Option RuntimeExecutionPlanDescriptor → PlanReply
of_pointer none = nil_plan
of_pointer (some d) = plan_selected d

abbrev pub no_counts : Counts
no_counts = record { default_plan = none; default_supported = 0; supported_plans = 0 }

-- The switch on the counts.
abbrev pub select_counted : Counts → List RuntimeExecutionPlanDescriptor → PlanReply
select_counted c ds =
    if c.default_supported == 1
    then of_pointer c.default_plan
    else if ltb 1 c.default_supported
    then selection_required
    else if c.supported_plans == 1
    then first_supported ds
    else if c.supported_plans == 0
    then plan_unavailable
    else selection_required

unfoldable pub select_descriptor :
    List RuntimeExecutionPlanDescriptor → Option RuntimeExecutionPlan → PlanReply
unfolding select_requested count_plans first_supported
select_descriptor [] none = plan_unavailable
select_descriptor [] (some p) = plan_unsupported
select_descriptor (d ∷ ds) (some p) = select_requested p (d ∷ ds)
select_descriptor (d ∷ ds) none = select_counted (count_plans (d ∷ ds) no_counts) (d ∷ ds)

unfoldable pub find_requested :
    RuntimeExecutionPlan → List RuntimeExecutionPlanDescriptor → PlanReply
unfolding plan_equals
find_requested p [] = plan_unsupported
find_requested p (d ∷ ds) =
    let rest = find_requested p ds in if plan_equals d.plan p then plan_selected d else rest

unfoldable pub find_default :
    List RuntimeExecutionPlanDescriptor → Option RuntimeExecutionPlanDescriptor
find_default [] = none
find_default (d ∷ ds) = let rest = find_default ds in if d.is_default then some d else rest

-- The default plan, or else the only one.
abbrev pub or_only :
    Option RuntimeExecutionPlanDescriptor → List RuntimeExecutionPlanDescriptor → PlanReply
or_only (some d) ds = plan_selected d
or_only none (d ∷ []) = plan_selected d
or_only none ds = selection_required

unfoldable pub select_tunnel_descriptor :
    List RuntimeExecutionPlanDescriptor → Option RuntimeExecutionPlan → PlanReply
unfolding find_requested find_default
select_tunnel_descriptor [] none = plan_unavailable
select_tunnel_descriptor [] (some p) = plan_unsupported
select_tunnel_descriptor (d ∷ ds) (some p) = find_requested p (d ∷ ds)
select_tunnel_descriptor (d ∷ ds) none = or_only (find_default (d ∷ ds)) (d ∷ ds)
