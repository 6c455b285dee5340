-- ===== src/Plan/Fixtures.antt =====
-- A small planner input: two units that run and one that the release disables, on two nodes.
use easy_deploy.Prelude.{ℕ, pos, String, none, some, List, [], ◌∷◌, ok}
use easy_deploy.Plan.Types.{
  normal, upgrade, start, stop, TargetUnitState, CurrentUnitNodeState, DeploymentPlanInput,
  DeploymentPlanItem, DeploymentAction, Digests,
}

abbrev pub digests : Digests
digests = record { to_vec = λ document. ok (0 ∷ []); sha256_hex = λ bytes. "digest" }

abbrev pub web : TargetUnitState
web = record {
  unit_id = 1;
  unit_key = "web";
  unit_release_id = some 10;
  release_version = some "1.2.0";
  release_version_code = some (pos 2);
  desired_status = "active";
  stage_no = pos 1;
  unit_order = pos 5;
  removal_order = pos 0;
  target_fingerprint = "web-new";
}

abbrev pub worker : TargetUnitState
worker = record web {
  unit_id = 2;
  unit_key = "worker";
  unit_release_id = some 20;
  unit_order = pos 1;
  target_fingerprint = "worker-new";
}

abbrev pub legacy : TargetUnitState
legacy = record web {
  unit_id = 3;
  unit_key = "legacy";
  unit_release_id = none;
  release_version = none;
  release_version_code = none;
  desired_status = "disabled";
  stage_no = pos 2;
  target_fingerprint = "";
}

abbrev pub web_on : ℕ → CurrentUnitNodeState
web_on node_id = record {
  unit_id = 1;
  node_id = node_id;
  runtime_status = "healthy";
  active_unit_release_id = some 9;
  active_version_code = some (pos 1);
  active_fingerprint = "web-old";
  container_version_label = "1.1.0";
}

abbrev pub legacy_on : ℕ → CurrentUnitNodeState
legacy_on node_id = record (web_on node_id) { unit_id = 3; active_fingerprint = "legacy" }

abbrev pub input : DeploymentPlanInput
input = record {
  app_id = 7;
  environment_id = 5;
  app_release_id = 4;
  config_revision_id = 6;
  mode = normal;
  target_node_ids = 2 ∷ 1 ∷ 2 ∷ [];
  target_units = web ∷ worker ∷ legacy ∷ [];
  current_states = web_on 1 ∷ web_on 2 ∷ legacy_on 1 ∷ [];
}

-- What the web unit looks like once the release runs.
abbrev pub web_updated : ℕ → CurrentUnitNodeState
web_updated node_id = record (web_on node_id) {
  active_unit_release_id = some 10;
  active_version_code = some (pos 2);
  active_fingerprint = "web-new";
  container_version_label = "1.2.0";
}

abbrev pub item_for : TargetUnitState → DeploymentAction → String → String → DeploymentPlanItem
item_for target action reason previous = record {
  unit_id = target.unit_id;
  unit_key = target.unit_key;
  unit_release_id = target.unit_release_id;
  release_version = target.release_version;
  stage_no = target.stage_no;
  unit_order = target.unit_order;
  removal_order = target.removal_order;
  action = action;
  reason = reason;
  target_fingerprint = target.target_fingerprint;
  previous_fingerprint = previous;
}

abbrev pub items : List DeploymentPlanItem
items =
    item_for legacy stop "目标应用版本停用该单元" "legacy"
    ∷ item_for worker start "目标节点尚未部署该单元" ""
    ∷ item_for web upgrade "目标发布包版本更高" "web-old"
    ∷ []
