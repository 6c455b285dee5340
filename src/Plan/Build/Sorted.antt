-- ===== src/Plan/Build/Sorted.antt =====
-- The order of a plan, and what the plan does not depend on
-- (api/src/deployment_orchestrator.rs, `build_deployment_plan`).
use easy_deploy.Prelude.{
  ℕ, List, [], ◌∷◌, map, true, contains, All, ok, ◌≡◌, refl, sym, ◌∙◌, arith, is_empty,
}
use easy_deploy.Prelude.Sorting.{sort_by, IsSorted, All-sort_by, sort_by-IsSorted}
use easy_deploy.Prelude.Ids.{sort_ids, dedup, dedup-sort_ids_unique}
use easy_deploy.Plan.Types.{
  DeploymentMode, DeploymentPlanInput, DeploymentPlanItem, DeploymentPlan, TargetUnitState,
  CurrentUnitNodeState, Digests,
}
use easy_deploy.Plan.Build.{plan_item, item_le, seal_plan, draft_plan, build_deployment_plan}
use easy_deploy.Plan.Build.Order.{
  planned_before, HasOpposite, InRange, item_le-planned_before, item_le-total, item_le_trans,
}
use easy_deploy.Plan.Build.Units.{plan_items-eq-map}
use easy_deploy.Plan.Build.Correct.{build_deployment_plan-Steps, seal_plan-items}

-- A unit whose stage and order the sort can negate.
abbrev pub HasRange : TargetUnitState → Type 0
HasRange t = HasOpposite t.stage_no × HasOpposite t.unit_order

InRange-plan_item :
    (mode : DeploymentMode) (nodes : List ℕ) (current : List CurrentUnitNodeState)
    (ts : List TargetUnitState)
    → All HasRange ts
    → All InRange (map (plan_item mode nodes current) ts)
unfolding plan_item
InRange-plan_item mode nodes current [] h = tt
InRange-plan_item mode nodes current (t ∷ ts) h = (h.0, InRange-plan_item mode nodes current ts h.1)

All-planned_before :
    (a : DeploymentPlanItem) (items : List DeploymentPlanItem)
    → InRange a
    → All InRange items
    → All (λ b. item_le a b ≡ true) items
    → All (λ b. planned_before a b ≡ true) items
All-planned_before a [] r rs h = tt
All-planned_before a (b ∷ bs) r rs h =
    (sym (item_le-planned_before a b r rs.0) ∙ h.0, All-planned_before a bs r rs.1 h.1)

IsSorted-planned_before :
    (items : List DeploymentPlanItem)
    → All InRange items
    → IsSorted item_le items
    → IsSorted planned_before items
IsSorted-planned_before [] r s = tt
IsSorted-planned_before (a ∷ items) r s =
    (All-planned_before a items r.0 r.1 s.0, IsSorted-planned_before items r.1 s.1)

-- In a plan the units to stop come first, by descending stage and removal order, and the others
-- follow by ascending stage and unit order, ties broken by unit id, if no unit's stage or unit
-- order is the least 64-bit integer.
pub build_deployment_plan-IsSorted :
    (digests : Digests) (input : DeploymentPlanInput) (plan : DeploymentPlan)
    → All HasRange input.target_units
    → build_deployment_plan digests input ≡ ok plan
    → IsSorted planned_before plan.items
build_deployment_plan-IsSorted digests input plan range h =
    let s = build_deployment_plan-Steps digests input plan h in
    let nodes = dedup (sort_ids input.target_node_ids) in
    let made = plan_items-eq-map input.mode nodes s.current input.target_units s.items s.planned in
    let in_range : All InRange s.items =
      rw made (InRange-plan_item input.mode nodes s.current input.target_units range) in
    rw (seal_plan-items digests input _ _ plan s.sealed).0 (
      IsSorted-planned_before (sort_by item_le s.items)
        (All-sort_by InRange item_le s.items in_range)
        (sort_by-IsSorted item_le item_le-total item_le_trans s.items))

is_empty-contains :
    (xs ys : List ℕ) → ((a : ℕ) → contains a xs ≡ contains a ys) → is_empty xs ≡ is_empty ys
unfolding contains
is_empty-contains [] [] h = refl
is_empty-contains [] (y ∷ ys) h = ground (arith, h y)
is_empty-contains (x ∷ xs) [] h = ground (arith, h x)
is_empty-contains (x ∷ xs) (y ∷ ys) h = refl

-- The plan, or the error, depends on the set of target nodes only: listing them in another order
-- or more than once changes nothing, the plan hash included.
pub build_deployment_plan-nodes_set :
    (digests : Digests) (input : DeploymentPlanInput) (node_ids : List ℕ)
    → ((a : ℕ) → contains a node_ids ≡ contains a input.target_node_ids)
    → build_deployment_plan digests (record input { target_node_ids = node_ids })
      ≡ build_deployment_plan digests input
unfolding build_deployment_plan draft_plan seal_plan
build_deployment_plan-nodes_set digests input node_ids h = rw (
  is_empty-contains node_ids input.target_node_ids h,
  dedup-sort_ids_unique node_ids input.target_node_ids h,
)
