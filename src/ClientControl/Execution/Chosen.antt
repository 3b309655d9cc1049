-- ===== src/ClientControl/Execution/Chosen.antt =====
-- What a plan that is chosen is like.
use text.Mathlib.TextEquality.{eq_iff}
use vk_turn_proxy_go.Base.{
  ◌≡◌, refl, sym, ◌∙◌, Bool, true, false, List, [], ◌∷◌, Option, none, some, arith, if_intro, Among,
  at_head, in_tail, ◌⊎◌, inl, inr,
}
use vk_turn_proxy_go.ClientControl.Execution.{
  supported, RuntimeExecutionPlan, RuntimeExecutionPlanDescriptor, plan_equals,
}
use vk_turn_proxy_go.ClientControl.Execution.Select.{plan_selected, is_supported, select_descriptor}
use vk_turn_proxy_go.ClientControl.Execution.Choice.{
  filter, cons_if, is_usable_default, one_of, first_asked, choose, select_descriptor-choose,
}

-- The four fields by which plans are told apart.
abbrev pub IsSamePlan : RuntimeExecutionPlan → RuntimeExecutionPlan → Type 0
IsSamePlan p q =
    (p.access_method ≡ q.access_method)
    × (p.carrier_family ≡ q.carrier_family)
    × (p.engine_family ≡ q.engine_family)
    × (p.host_adapter ≡ q.host_adapter)

-- The plan that is asked for, or else the one that is left when none is asked for.
abbrev pub IsAsked :
    Option RuntimeExecutionPlan
    → RuntimeExecutionPlanDescriptor
    → List RuntimeExecutionPlanDescriptor
    → Type 0
IsAsked none d ds = choose ds none ≡ plan_selected d
IsAsked (some p) d ds = IsSamePlan d.plan p

abbrev pub IsChosen :
    Option RuntimeExecutionPlan
    → RuntimeExecutionPlanDescriptor
    → List RuntimeExecutionPlanDescriptor
    → Type 0
IsChosen requested d ds = Among d ds × (d.support_state ≡ supported) × IsAsked requested d ds

plan_equals-IsSamePlan : (p q : RuntimeExecutionPlan) → plan_equals p q ≡ true → IsSamePlan p q
unfolding plan_equals
plan_equals-IsSamePlan p q h = ground (
  arith,
  eq_iff p.access_method q.access_method,
  eq_iff p.carrier_family q.carrier_family,
  eq_iff p.engine_family q.engine_family,
  eq_iff p.host_adapter q.host_adapter,
)

module _ (f : RuntimeExecutionPlanDescriptor → Bool) (d : RuntimeExecutionPlanDescriptor) where
  abbrev Kept : List RuntimeExecutionPlanDescriptor → Type 0
  Kept ds = Among d ds × (f d ≡ true)

  Kept-cons :
      (b : Bool) (x : RuntimeExecutionPlanDescriptor)
      (kept ds : List RuntimeExecutionPlanDescriptor)
      → f x ≡ b
      → (Among d kept → Kept ds)
      → Among d (cons_if b x kept)
      → Kept (x ∷ ds)
  Kept-cons true x kept ds e h (at_head p) = (at_head p, rw p at e)
  Kept-cons true x kept ds e h (in_tail m) = let (a, b) = h m in (in_tail a, b)
  Kept-cons false x kept ds e h m = let (a, b) = h m in (in_tail a, b)

  filter-Kept : (ds : List RuntimeExecutionPlanDescriptor) → Among d (filter f ds) → Kept ds
  filter-Kept [] m = elim m [ ]
  filter-Kept (x ∷ ds) m = Kept-cons (f x) x (filter f ds) ds refl (filter-Kept ds) m

one_of-Among :
    (defaults usable : List RuntimeExecutionPlanDescriptor) (d : RuntimeExecutionPlanDescriptor)
    → one_of defaults usable ≡ plan_selected d
    → Among d defaults ⊎ Among d usable
one_of-Among (x ∷ []) usable d h = inl (at_head (cc h))
one_of-Among (x ∷ y ∷ xs) usable d h = cc
one_of-Among [] [] d h = cc
one_of-Among [] (x ∷ []) d h = inr (at_head (cc h))
one_of-Among [] (x ∷ y ∷ xs) d h = cc

first_asked-Among :
    (ds : List RuntimeExecutionPlanDescriptor) (d : RuntimeExecutionPlanDescriptor)
    → first_asked ds ≡ plan_selected d
    → Among d ds × (is_supported d ≡ true)
first_asked-Among [] d = λ h. cc
first_asked-Among (x ∷ ds) d =
    if_intro (λ r. r ≡ plan_selected d → Among d (x ∷ ds) × (is_supported d ≡ true))
      (is_supported x) _ _ (λ e h. let same : x ≡ d = cc h in (at_head same, rw same at e))
      (λ _ h. cc)

usable_of :
    (d : RuntimeExecutionPlanDescriptor) → is_usable_default d ≡ true → is_supported d ≡ true
usable_of d h = ground arith

choose-IsChosen :
    (ds : List RuntimeExecutionPlanDescriptor) (requested : Option RuntimeExecutionPlan)
    (d : RuntimeExecutionPlanDescriptor)
    → choose ds requested ≡ plan_selected d
    → IsChosen requested d ds
choose-IsChosen ds none d h =
    elim (one_of-Among (filter is_usable_default ds) (filter is_supported ds) d h) [
      | inl m ↦
          let (a, b) = filter-Kept is_usable_default d ds m in
          (a, (eq_iff d.support_state supported).0 (usable_of d b), h)
      | inr m ↦
          let (a, b) = filter-Kept is_supported d ds m in
          (a, (eq_iff d.support_state supported).0 b, h)
    ]
choose-IsChosen ds (some p) d h =
    let as_asked : RuntimeExecutionPlanDescriptor → Bool = λ d. plan_equals d.plan p in
    let (m, s) = first_asked-Among (filter as_asked ds) d h in
    let (a, b) = filter-Kept as_asked d ds m in
    (a, (eq_iff d.support_state supported).0 s, plan_equals-IsSamePlan d.plan p b)

-- A plan that is selected is one of the plans, it is supported, and it is the one that was asked for,
-- or the one that is left when none was.
pub select_descriptor-IsChosen :
    (ds : List RuntimeExecutionPlanDescriptor) (requested : Option RuntimeExecutionPlan)
    (d : RuntimeExecutionPlanDescriptor)
    → select_descriptor ds requested ≡ plan_selected d
    → IsChosen requested d ds
select_descriptor-IsChosen ds requested d h =
    choose-IsChosen ds requested d (sym (select_descriptor-choose ds requested) ∙ h)
