-- ===== src/Plan/Build.antt =====
-- The plan itself (api/src/deployment_orchestrator.rs, `build_deployment_plan`).
pub mod Order
pub mod States
pub mod Units
pub mod Correct
pub mod Sorted
use easy_deploy.Prelude.{
  ℕ, ℤ, String, Option, none, some, List, [], ◌∷◌, Bool, true, false, not, ◌&&◌, ◌||◌, is_empty,
  contains, find, if◌then◌else◌, ◌==◌, leb, str_eq, eq_int, le_int, lt_int, neg_i64, Result, ok,
  err, ◌>>=◌, map_err, is_none, is_some,
}
use easy_deploy.Prelude.Sorting.{sort_by}
use easy_deploy.Prelude.Ids.{sort_ids, dedup}
use easy_deploy.Plan.Types.{
  DeploymentMode, DeploymentAction, stop, TargetUnitState, CurrentUnitNodeState,
  DeploymentPlanInput, DeploymentPlanItem, DeploymentPlan, PlanHashDocument, DeploymentPlanError,
  message, serialize_failed, Digests,
}
use easy_deploy.Plan.Classify.{classify_action, common_previous_fingerprint}

abbrev pub PlanResult : Type 0 → Type 0
PlanResult A = Result A DeploymentPlanError

-- The key of `current_by_unit_node`.
abbrev pub at_unit_node : ℕ → ℕ → CurrentUnitNodeState → Bool
at_unit_node unit_id node_id state = (state.unit_id == unit_id) && (state.node_id == node_id)

unfoldable pub lookup_state : ℕ → ℕ → List CurrentUnitNodeState → Option CurrentUnitNodeState
lookup_state unit_id node_id = find (at_unit_node unit_id node_id)

-- The loop that fills `current_by_unit_node`: the map so far, and the states left.
unfoldable pub collect_states :
    List CurrentUnitNodeState → List CurrentUnitNodeState → PlanResult (List CurrentUnitNodeState)
unfolding lookup_state
collect_states collected [] = ok collected
collect_states collected (state ∷ states) =
    let rest = collect_states (state ∷ collected) states in
    if is_some (lookup_state state.unit_id state.node_id collected)
    then err (message "同一部署单元和节点存在重复运行状态")
    else rest

-- The states of one unit on the target nodes, in the order of the nodes.
unfoldable pub unit_states : List CurrentUnitNodeState → ℕ → List ℕ → List CurrentUnitNodeState
unfolding lookup_state
unit_states current unit_id [] = []
unit_states current unit_id (node_id ∷ node_ids) =
    let rest = unit_states current unit_id node_ids in
    elim (lookup_state unit_id node_id current) [ none ↦ rest | some state ↦ state ∷ rest ]

-- The item that the loop pushes for one unit.
unfoldable pub plan_item :
    DeploymentMode → List ℕ → List CurrentUnitNodeState → TargetUnitState → DeploymentPlanItem
plan_item mode node_ids current target =
    let states = unit_states current target.unit_id node_ids in
    let (action, reason) = classify_action mode target node_ids states in
    record {
      unit_id = target.unit_id;
      unit_key = target.unit_key;
      unit_release_id = target.unit_release_id;
      release_version = target.release_version;
      stage_no = target.stage_no;
      unit_order = target.unit_order;
      removal_order = target.removal_order;
      action = action;
      reason = reason;
      target_fingerprint = target.target_fingerprint;
      previous_fingerprint = common_previous_fingerprint states;
    }

-- The loop over the target units: the unit ids met so far, and the units left.
unfoldable pub plan_items :
    DeploymentMode
    → List ℕ
    → List CurrentUnitNodeState
    → List ℕ
    → List TargetUnitState
    → PlanResult (List DeploymentPlanItem)
plan_items mode node_ids current seen [] = ok []
plan_items mode node_ids current seen (target ∷ targets) =
    let rest = plan_items mode node_ids current (target.unit_id ∷ seen) targets in
    if contains target.unit_id seen
    then err (message "应用版本包含重复部署单元")
    else if not (str_eq target.desired_status "active" || str_eq target.desired_status "disabled")
    then err (message "部署单元目标状态必须是 active 或 disabled")
    else if str_eq target.desired_status "active" && is_none target.unit_release_id
    then err (message "启用的部署单元缺少发布包")
    else do items ← rest; ok (plan_item mode node_ids current target ∷ items)

unfoldable pub is_stop : DeploymentAction → Bool
is_stop stop = true
is_stop _ = false

-- The key that the items are sorted by; the two middle entries stand under `Reverse`.
pub record SortKey : Type 0 where
  pub group : ℕ
  pub stage : ℤ
  pub order : ℤ
  pub unit_id : ℕ

unfoldable pub sort_key : DeploymentPlanItem → SortKey
unfolding is_stop
sort_key item =
    if is_stop item.action
    then record {
      group = 0;
      stage = item.stage_no;
      order = item.removal_order;
      unit_id = item.unit_id;
    }
    else record {
      group = 1;
      stage = neg_i64 item.stage_no;
      order = neg_i64 item.unit_order;
      unit_id = item.unit_id;
    }

-- The lexicographic order of `(i8, Reverse<i64>, Reverse<i64>, i64)`.
unfoldable pub key_le : SortKey → SortKey → Bool
key_le a b =
    if not (a.group == b.group)
    then leb a.group b.group
    else if not (eq_int a.stage b.stage)
    then le_int b.stage a.stage
    else if not (eq_int a.order b.order)
    then le_int b.order a.order
    else leb a.unit_id b.unit_id

unfoldable pub item_le : DeploymentPlanItem → DeploymentPlanItem → Bool
item_le a b = key_le (sort_key a) (sort_key b)

-- The document that is hashed.
unfoldable pub hash_document :
    DeploymentPlanInput → List ℕ → List DeploymentPlanItem → PlanHashDocument
hash_document input node_ids items = record {
  app_id = input.app_id;
  environment_id = input.environment_id;
  app_release_id = input.app_release_id;
  config_revision_id = input.config_revision_id;
  mode = input.mode;
  target_node_ids = node_ids;
  items = items;
}

-- The plan that is returned with a hash.
unfoldable pub hashed_plan :
    DeploymentPlanInput → List ℕ → List DeploymentPlanItem → String → DeploymentPlan
hashed_plan input node_ids items plan_hash = record {
  app_id = input.app_id;
  environment_id = input.environment_id;
  app_release_id = input.app_release_id;
  config_revision_id = input.config_revision_id;
  mode = input.mode;
  target_node_ids = node_ids;
  items = items;
  plan_hash = plan_hash;
}

-- The end of the planner, once the items are sorted.
unfoldable pub seal_plan :
    Digests → DeploymentPlanInput → List ℕ → List DeploymentPlanItem → PlanResult DeploymentPlan
unfolding hash_document hashed_plan
seal_plan digests input node_ids items = do
  plan_json ← map_err serialize_failed (digests.to_vec (hash_document input node_ids items))
  ok (hashed_plan input node_ids items (digests.sha256_hex plan_json))

-- The steps after the two tests for emptiness.
unfoldable pub draft_plan : Digests → DeploymentPlanInput → PlanResult DeploymentPlan
draft_plan digests input = do
  let node_ids = dedup (sort_ids input.target_node_ids)
  current ← collect_states [] input.current_states
  items ← plan_items input.mode node_ids current [] input.target_units
  seal_plan digests input node_ids (sort_by item_le items)

unfoldable pub build_deployment_plan : Digests → DeploymentPlanInput → PlanResult DeploymentPlan
build_deployment_plan digests input =
    if is_empty input.target_node_ids
    then err (message "部署环境至少需要一个目标节点")
    else if is_empty input.target_units
    then err (message "应用版本不包含部署单元")
    else draft_plan digests input
