-- ===== src/ClientControl/Execution/Choice.antt =====
-- What the choice of a plan comes to.
use vk_turn_proxy_go.Base.{
  ◌+◌, ◌≡◌, refl, sym, ap, Bool, true, false, ◌&&◌, ◌∙◌, List, [], ◌∷◌, ◌++◌, Option, none, some,
  if◌then◌else◌, length, arith, ◌==◌, ltb,
}
use vk_turn_proxy_go.ClientControl.Execution.{
  RuntimeExecutionPlan, RuntimeExecutionPlanDescriptor, PlatformTunnelCapability, plan_equals,
}
use vk_turn_proxy_go.ClientControl.Execution.Matrix.{
  plans_for_action, tunnel_plans, overlay_descriptor, start_on_this_device, generic_turn,
}
use vk_turn_proxy_go.ClientControl.Execution.Select.{
  PlanReply, plan_selected, plan_refused, selection_required, plan_unsupported, plan_unavailable,
  is_supported, count_as, unavailable_message, select_requested, Counts, no_counts, or_first,
  count_round, count_plans, first_supported, select_counted, select_descriptor,
}

abbrev pub cons_if {ℓ} : {A : Type ℓ} → Bool → A → List A → List A
cons_if true x xs = x ∷ xs
cons_if false x xs = xs

abbrev pub filter {ℓ} : {A : Type ℓ} → (A → Bool) → List A → List A
filter f [] = []
filter f (x ∷ xs) = cons_if (f x) x (filter f xs)

abbrev pub head {ℓ} : {A : Type ℓ} → List A → Option A
head [] = none
head (x ∷ xs) = some x

abbrev pub is_usable_default : RuntimeExecutionPlanDescriptor → Bool
is_usable_default d = is_supported d && d.is_default

-- The one usable default, or, where there is none, the one usable plan.
abbrev pub one_of : (defaults usable : List RuntimeExecutionPlanDescriptor) → PlanReply
one_of (d ∷ []) usable = plan_selected d
one_of (d ∷ e ∷ ds) usable = selection_required
one_of [] [] = plan_unavailable
one_of [] (d ∷ []) = plan_selected d
one_of [] (d ∷ e ∷ ds) = selection_required

-- The first plan of those that are as asked for.
abbrev pub first_asked : List RuntimeExecutionPlanDescriptor → PlanReply
first_asked [] = plan_unsupported
first_asked (d ∷ ds) =
    if is_supported d then plan_selected d else plan_refused d (unavailable_message d)

abbrev pub choose : List RuntimeExecutionPlanDescriptor → Option RuntimeExecutionPlan → PlanReply
choose ds none = one_of (filter is_usable_default ds) (filter is_supported ds)
choose ds (some p) = first_asked (filter (λ d. plan_equals d.plan p) ds)

abbrev or_head :
    Option RuntimeExecutionPlanDescriptor
    → Option RuntimeExecutionPlanDescriptor
    → Option RuntimeExecutionPlanDescriptor
or_head none o = o
or_head (some d) o = some d

or_head-or_first :
    (o : Option RuntimeExecutionPlanDescriptor) (d : RuntimeExecutionPlanDescriptor)
    (p : Option RuntimeExecutionPlanDescriptor)
    → or_head (or_first o d) p ≡ or_head o (some d)
or_head-or_first none d p = refl
or_head-or_first (some e) d p = refl

or_head-none : (o : Option RuntimeExecutionPlanDescriptor) → or_head o none ≡ o
or_head-none none = refl
or_head-none (some d) = refl

-- What was counted on top of `c`, where these are the usable defaults and the usable plans.
abbrev Tally : (defaults usable : List RuntimeExecutionPlanDescriptor) (c r : Counts) → Type 0
Tally defaults usable c r =
    (r.default_plan ≡ or_head c.default_plan (head defaults))
    × (r.default_supported ≡ c.default_supported + length defaults)
    × (r.supported_plans ≡ c.supported_plans + length usable)

count_as-Tally :
    (s b : Bool) (d : RuntimeExecutionPlanDescriptor)
    (defaults usable : List RuntimeExecutionPlanDescriptor) (c r : Counts)
    → Tally defaults usable (count_as s b d c) r
    → Tally (cons_if (s && b) d defaults) (cons_if s d usable) c r
count_as-Tally true true d defaults usable c r (p, m, n) =
    (p ∙ or_head-or_first c.default_plan d (head defaults), omega arith, omega arith)
count_as-Tally true false d defaults usable c r (p, m, n) = (p, m, omega arith)
count_as-Tally false b d defaults usable c r h = h

count_plans-Tally :
    (ds : List RuntimeExecutionPlanDescriptor) (c : Counts)
    → Tally (filter is_usable_default ds) (filter is_supported ds) c (count_plans ds c)
unfolding count_plans
count_plans-Tally [] c = (sym (or_head-none c.default_plan), omega arith, omega arith)
count_plans-Tally (d ∷ ds) c =
    count_as-Tally (is_supported d) d.is_default d (filter is_usable_default ds)
      (filter is_supported ds) c (count_plans ds (count_round d c))
      (count_plans-Tally ds (count_round d c))

abbrev first_or_required : List RuntimeExecutionPlanDescriptor → PlanReply
first_or_required [] = selection_required
first_or_required (d ∷ ds) = plan_selected d

first_supported_cons :
    (b : Bool) (d : RuntimeExecutionPlanDescriptor) (ds : List RuntimeExecutionPlanDescriptor)
    (rest : PlanReply)
    → rest ≡ first_or_required ds
    → (if b then plan_selected d else rest) ≡ first_or_required (cons_if b d ds)
first_supported_cons true d ds rest e = refl
first_supported_cons false d ds rest e = e

first_supported-filter :
    (ds : List RuntimeExecutionPlanDescriptor)
    → first_supported ds ≡ first_or_required (filter is_supported ds)
unfolding first_supported
first_supported-filter [] = refl
first_supported-filter (d ∷ ds) =
    first_supported_cons (is_supported d) d (filter is_supported ds) (first_supported ds)
      (first_supported-filter ds)

first_asked_cons :
    (b : Bool) (d : RuntimeExecutionPlanDescriptor) (ds : List RuntimeExecutionPlanDescriptor)
    (rest : PlanReply)
    → rest ≡ first_asked ds
    → (if b then first_asked (d ∷ []) else rest) ≡ first_asked (cons_if b d ds)
first_asked_cons true d ds rest e = refl
first_asked_cons false d ds rest e = e

select_requested-filter :
    (p : RuntimeExecutionPlan) (ds : List RuntimeExecutionPlanDescriptor)
    → select_requested p ds ≡ first_asked (filter (λ d. plan_equals d.plan p) ds)
unfolding select_requested
select_requested-filter p [] = refl
select_requested-filter p (d ∷ ds) =
    first_asked_cons (plan_equals d.plan p) d (filter (λ d. plan_equals d.plan p) ds)
      (select_requested p ds) (select_requested-filter p ds)

select_counted-one_of :
    (defaults usable ds : List RuntimeExecutionPlanDescriptor) (c : Counts)
    → Tally defaults usable no_counts c
    → first_supported ds ≡ first_or_required usable
    → select_counted c ds ≡ one_of defaults usable
select_counted-one_of (d ∷ []) usable ds c (p, m, n) e =
    let m1 : c.default_supported ≡ 1 = omega arith in rw (m1, p) refl
select_counted-one_of (d ∷ d' ∷ defaults) usable ds c (p, m, n) e =
    let m1 : (c.default_supported == 1) ≡ false = ground arith in
    let m2 : ltb 1 c.default_supported ≡ true = ground arith in rw (m1, m2) refl
select_counted-one_of [] [] ds c (p, m, n) e =
    let m1 : c.default_supported ≡ 0 = omega arith in
    let n1 : c.supported_plans ≡ 0 = omega arith in rw (m1, n1) refl
select_counted-one_of [] (d ∷ []) ds c (p, m, n) e =
    let m1 : c.default_supported ≡ 0 = omega arith in
    let n1 : c.supported_plans ≡ 1 = omega arith in rw (m1, n1, e) refl
select_counted-one_of [] (d ∷ d' ∷ usable) ds c (p, m, n) e =
    let m1 : c.default_supported ≡ 0 = omega arith in
    let n1 : (c.supported_plans == 1) ≡ false = ground arith in
    let n2 : (c.supported_plans == 0) ≡ false = ground arith in rw (m1, n1, n2) refl

-- The choice of a plan: where one is asked for, the first descriptor of that plan, refused unless it
-- is supported; else the one descriptor that is supported and the default, or, where there is none,
-- the one that is supported.
pub select_descriptor-choose :
    (ds : List RuntimeExecutionPlanDescriptor) (requested : Option RuntimeExecutionPlan)
    → select_descriptor ds requested ≡ choose ds requested
unfolding select_descriptor
select_descriptor-choose [] none = refl
select_descriptor-choose [] (some p) = refl
select_descriptor-choose (d ∷ ds) (some p) = select_requested-filter p (d ∷ ds)
select_descriptor-choose (d ∷ ds) none =
    select_counted-one_of (filter is_usable_default (d ∷ ds)) (filter is_supported (d ∷ ds))
      (d ∷ ds) (count_plans (d ∷ ds) no_counts) (count_plans-Tally (d ∷ ds) no_counts)
      (first_supported-filter (d ∷ ds))

abbrev pub overlay_unless : List RuntimeExecutionPlanDescriptor → PlanReply
overlay_unless [] = plan_selected overlay_descriptor
overlay_unless (d ∷ ds) = selection_required

one_of_overlay :
    (defaults usable : List RuntimeExecutionPlanDescriptor)
    → one_of (overlay_descriptor ∷ defaults) usable ≡ overlay_unless defaults
one_of_overlay [] usable = refl
one_of_overlay (d ∷ ds) usable = refl

cons_if-append :
    (b : Bool) (x : RuntimeExecutionPlanDescriptor) (xs ys : List RuntimeExecutionPlanDescriptor)
    → cons_if b x (xs ++ ys) ≡ cons_if b x xs ++ ys
cons_if-append true x xs ys = refl
cons_if-append false x xs ys = refl

filter-append :
    (f : RuntimeExecutionPlanDescriptor → Bool) (xs ys : List RuntimeExecutionPlanDescriptor)
    → filter f (xs ++ ys) ≡ filter f xs ++ filter f ys
filter-append f [] ys = refl
filter-append f (x ∷ xs) ys =
    ap (cons_if (f x) x) (filter-append f xs ys)
    ∙ cons_if-append (f x) x (filter f xs) (filter f ys)

-- The plans of each tunnel that are supported and its default.
abbrev pub usable_defaults : List PlatformTunnelCapability → List RuntimeExecutionPlanDescriptor
usable_defaults [] = []
usable_defaults (c ∷ cs) = filter is_usable_default c.execution_plans ++ usable_defaults cs

filter-tunnel_plans :
    (tunnels : List PlatformTunnelCapability)
    → filter is_usable_default (tunnel_plans tunnels) ≡ usable_defaults tunnels
filter-tunnel_plans [] = refl
filter-tunnel_plans (c ∷ cs) =
    filter-append is_usable_default c.execution_plans (tunnel_plans cs)
    ∙ ap (λ ds. filter is_usable_default c.execution_plans ++ ds) (filter-tunnel_plans cs)

-- For a start on this device from TURN credentials, with no plan asked for, the choice is the DTLS
-- overlay where no platform tunnel has a default plan that is supported, and left to the caller
-- otherwise.
pub select_descriptor-plans_for_action :
    (tunnels : List PlatformTunnelCapability)
    → select_descriptor (plans_for_action start_on_this_device generic_turn tunnels) none
      ≡ overlay_unless (usable_defaults tunnels)
unfolding plans_for_action
select_descriptor-plans_for_action tunnels =
    select_descriptor-choose (overlay_descriptor ∷ tunnel_plans tunnels) none
    ∙ one_of_overlay (filter is_usable_default (tunnel_plans tunnels)) _
    ∙ ap overlay_unless (filter-tunnel_plans tunnels)
