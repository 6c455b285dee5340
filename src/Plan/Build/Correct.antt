-- ===== src/Plan/Build/Correct.antt =====
-- What a successful planning promises (api/src/deployment_orchestrator.rs,
-- `build_deployment_plan`).
use mathlib.Core.List.{Perm}
use mathlib.Core.Logic.{◌↔◌, ◌≢◌}
use easy_deploy.Prelude.{
  ℕ, List, [], ◌∷◌, map, false, contains, All, Distinct, ok, >>=-eq-ok, ◌≡◌, refl, ap, ◌∙◌, arith,
  is_empty, ltb,
}
use easy_deploy.Prelude.Sorting.{sort_by, IsSorted, sort_by-perm}
use easy_deploy.Prelude.Ids.{
  sort_ids, dedup, dedup-sort_ids-IsSorted, contains-dedup, contains-sort_ids,
}
use easy_deploy.Plan.Types.{
  DeploymentPlanInput, DeploymentPlanItem, DeploymentPlan, TargetUnitState, CurrentUnitNodeState,
  PlanHashDocument, Digests, DeploymentMode,
}
use easy_deploy.Plan.Build.{
  hash_document, hashed_plan, draft_plan, plan_item, plan_items, collect_states, seal_plan, item_le,
  build_deployment_plan,
}
use easy_deploy.Plan.Build.States.{
  DistinctPlaces, collect_states-DistinctPlaces, unit_states-collect_states,
}
use easy_deploy.Plan.Build.Units.{
  IsPlannable, unit_ids, plan_items-Fresh, Fresh-plan_items, plan_items-eq-map, Fresh-iff,
}

-- An input that a plan can be made of.
pub record IsValid (input : DeploymentPlanInput) : Type 0 where
  pub has_nodes : input.target_node_ids ≢ []
  pub has_units : input.target_units ≢ []
  pub places : DistinctPlaces input.current_states
  pub units : Distinct (unit_ids input.target_units)
  pub plannable : All IsPlannable input.target_units

-- serde_json turns the document to bytes: it has no map and no failing serializer.
abbrev pub Serializes : Digests → Type 0
Serializes digests =
    (document : PlanHashDocument) → (bytes : List ℕ) × (digests.to_vec document ≡ ok bytes)

-- The steps of a successful run.
pub record Steps (digests : Digests) (input : DeploymentPlanInput) (plan : DeploymentPlan)
    : Type 0 where
  pub current : List CurrentUnitNodeState
  pub items : List DeploymentPlanItem
  pub has_nodes : input.target_node_ids ≢ []
  pub has_units : input.target_units ≢ []
  pub collected : collect_states [] input.current_states ≡ ok current
  pub planned :
      plan_items input.mode (dedup (sort_ids input.target_node_ids)) current [] input.target_units
      ≡ ok items
  pub sealed :
      seal_plan digests input (dedup (sort_ids input.target_node_ids)) (sort_by item_le items)
      ≡ ok plan

pub seal_plan-items :
    (digests : Digests) (input : DeploymentPlanInput) (nodes : List ℕ)
    (items : List DeploymentPlanItem) (plan : DeploymentPlan)
    → seal_plan digests input nodes items ≡ ok plan
    → (plan.items ≡ items) × (plan.target_node_ids ≡ nodes)
unfolding seal_plan
seal_plan-items digests input nodes items plan h = ground arith

seal_plan-total :
    (digests : Digests) (input : DeploymentPlanInput) (nodes : List ℕ)
    (items : List DeploymentPlanItem)
    → Serializes digests
    → (plan : DeploymentPlan) × (seal_plan digests input nodes items ≡ ok plan)
unfolding seal_plan
seal_plan-total digests input nodes items serializes =
    let (bytes, e) = serializes (hash_document input nodes items) in
    (hashed_plan input nodes items (digests.sha256_hex bytes), ground (arith, e))

is_empty_iff {ℓ} : {A : Type ℓ} (xs : List A) → (is_empty xs ≡ false) ↔ (xs ≢ [])
is_empty_iff [] = (λ h. cc, λ h. absurd (h refl))
is_empty_iff (x ∷ xs) = (λ h. λ e. cc, λ h. refl)

module _ (digests : Digests) (input : DeploymentPlanInput) where
  build-draft :
      {plan : DeploymentPlan}
      → build_deployment_plan digests input ≡ ok plan
      → (draft_plan digests input ≡ ok plan)
        × (is_empty input.target_node_ids ≡ false)
        × (is_empty input.target_units ≡ false)
  unfolding build_deployment_plan
  build-draft h = (ground arith, ground arith, ground arith)

  pub build_deployment_plan-Steps :
      (plan : DeploymentPlan)
      → build_deployment_plan digests input ≡ ok plan
      → Steps digests input plan
  unfolding draft_plan
  build_deployment_plan-Steps plan h =
      let (drafted, nodes, units) = build-draft h in
      let (current, collected, h₁) = >>=-eq-ok (collect_states [] input.current_states) _ drafted in
      let (items, planned, h₂) =
        >>=-eq-ok
          (plan_items input.mode (dedup (sort_ids input.target_node_ids)) current []
            input.target_units)
          _ h₁ in
      record {
        current = current;
        items = items;
        has_nodes = (is_empty_iff input.target_node_ids).0 nodes;
        has_units = (is_empty_iff input.target_units).0 units;
        collected = collected;
        planned = planned;
        sealed = h₂;
      }

-- Planning succeeds exactly on the inputs with a target node, a unit, at most one state for a unit
-- on a node, no unit twice, and every unit either disabled or active with a release, if the
-- document can always be serialized.
pub build_deployment_plan-IsValid :
    (digests : Digests) (input : DeploymentPlanInput)
    → Serializes digests
    → ((plan : DeploymentPlan) × (build_deployment_plan digests input ≡ ok plan)) ↔ IsValid input
unfolding build_deployment_plan draft_plan
build_deployment_plan-IsValid digests input serializes = (
  λ (plan, h).
      let s = build_deployment_plan-Steps digests input plan h in
      let fresh =
        (Fresh-iff input.target_units).0
          (plan_items-Fresh input.mode _ s.current [] input.target_units s.items s.planned) in
      record {
        has_nodes = s.has_nodes;
        has_units = s.has_units;
        places = (collect_states-DistinctPlaces input.current_states).0 (s.current, s.collected);
        units = fresh.0;
        plannable = fresh.1;
      },
  λ v.
      let (current, collected) = (collect_states-DistinctPlaces input.current_states).1 v.places in
      let planned =
        Fresh-plan_items input.mode (dedup (sort_ids input.target_node_ids)) current []
          input.target_units ((Fresh-iff input.target_units).1 (v.units, v.plannable)) in
      let (plan, sealed) =
        seal_plan-total digests input (dedup (sort_ids input.target_node_ids))
          (sort_by item_le (
            map (plan_item input.mode (dedup (sort_ids input.target_node_ids)) current)
              input.target_units))
          serializes in
      (
        plan,
        rw
            (
              (is_empty_iff input.target_node_ids).1 v.has_nodes,
              (is_empty_iff input.target_units).1 v.has_units,
              collected,
              planned,
            )
            sealed,
      ),
)

-- The target nodes of a plan are those of the input, strictly ascending.
pub build_deployment_plan-nodes :
    (digests : Digests) (input : DeploymentPlanInput) (plan : DeploymentPlan)
    → build_deployment_plan digests input ≡ ok plan
    → IsSorted ltb plan.target_node_ids
      × ((a : ℕ) → contains a plan.target_node_ids ≡ contains a input.target_node_ids)
build_deployment_plan-nodes digests input plan h =
    let s = build_deployment_plan-Steps digests input plan h in
    let e = (seal_plan-items digests input _ _ plan s.sealed).1 in
    (
      rw e (dedup-sort_ids-IsSorted input.target_node_ids),
      λ a. rw e (
          contains-dedup a (sort_ids input.target_node_ids)
          ∙ contains-sort_ids a input.target_node_ids),
    )

plan_item-collect_states :
    (mode : DeploymentMode) (nodes : List ℕ) (states current : List CurrentUnitNodeState)
    (targets : List TargetUnitState)
    → collect_states [] states ≡ ok current
    → map (plan_item mode nodes current) targets ≡ map (plan_item mode nodes states) targets
unfolding plan_item
plan_item-collect_states mode nodes states current [] h = refl
plan_item-collect_states mode nodes states current (t ∷ ts) h =
    rw (unit_states-collect_states t.unit_id nodes states current h) (
      ap (λ rest. plan_item mode nodes states t ∷ rest)
        (plan_item-collect_states mode nodes states current ts h))

-- The items of a plan are one for each target unit, each judged by the states that were reported
-- for it on the plan's nodes.
pub build_deployment_plan-items :
    (digests : Digests) (input : DeploymentPlanInput) (plan : DeploymentPlan)
    → build_deployment_plan digests input ≡ ok plan
    → Perm plan.items
        (map (plan_item input.mode plan.target_node_ids input.current_states) input.target_units)
build_deployment_plan-items digests input plan h =
    let s = build_deployment_plan-Steps digests input plan h in
    let e = seal_plan-items digests input _ _ plan s.sealed in
    let nodes = dedup (sort_ids input.target_node_ids) in
    let made =
      plan_items-eq-map input.mode nodes s.current input.target_units s.items s.planned
      ∙ plan_item-collect_states input.mode nodes input.current_states s.current input.target_units
          s.collected in
    rw (e.0, e.1, ← made) (sort_by-perm item_le s.items)

-- A plan is for the environment that it was asked for.
pub build_deployment_plan-environment :
    (digests : Digests) (input : DeploymentPlanInput) (plan : DeploymentPlan)
    → build_deployment_plan digests input ≡ ok plan
    → plan.environment_id ≡ input.environment_id
unfolding seal_plan
build_deployment_plan-environment digests input plan h =
    let s = build_deployment_plan-Steps digests input plan h in
    let sealed = s.sealed in ground (arith, sealed)
