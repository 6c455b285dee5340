-- ===== src/Plan/Types.antt =====
-- The data of the deployment planner (api/src/deployment_orchestrator.rs, lines 15 to 93). Row ids
-- are natural numbers; stages, orders and version codes are integers.
use easy_deploy.Prelude.{ℕ, ℤ, String, Option, List, Result}

pub data DeploymentMode : Type 0 where
  normal force : DeploymentMode

pub data DeploymentAction : Type 0 where
  deploy skip start stop upgrade downgrade restore application_check : DeploymentAction

pub record TargetUnitState : Type 0 where
  pub unit_id : ℕ
  pub unit_key : String
  pub unit_release_id : Option ℕ
  pub release_version : Option String
  pub release_version_code : Option ℤ
  pub desired_status : String
  pub stage_no : ℤ
  pub unit_order : ℤ
  pub removal_order : ℤ
  pub target_fingerprint : String

pub record CurrentUnitNodeState : Type 0 where
  pub unit_id : ℕ
  pub node_id : ℕ
  pub runtime_status : String
  pub active_unit_release_id : Option ℕ
  pub active_version_code : Option ℤ
  pub active_fingerprint : String
  pub container_version_label : String

pub record DeploymentPlanInput : Type 0 where
  pub app_id : ℕ
  pub environment_id : ℕ
  pub app_release_id : ℕ
  pub config_revision_id : ℕ
  pub mode : DeploymentMode
  pub target_node_ids : List ℕ
  pub target_units : List TargetUnitState
  pub current_states : List CurrentUnitNodeState

pub record DeploymentPlanItem : Type 0 where
  pub unit_id : ℕ
  pub unit_key : String
  pub unit_release_id : Option ℕ
  pub release_version : Option String
  pub stage_no : ℤ
  pub unit_order : ℤ
  pub removal_order : ℤ
  pub action : DeploymentAction
  pub reason : String
  pub target_fingerprint : String
  pub previous_fingerprint : String

pub record DeploymentPlan : Type 0 where
  pub app_id : ℕ
  pub environment_id : ℕ
  pub app_release_id : ℕ
  pub config_revision_id : ℕ
  pub mode : DeploymentMode
  pub target_node_ids : List ℕ
  pub items : List DeploymentPlanItem
  pub plan_hash : String

-- What the plan hash covers.
pub record PlanHashDocument : Type 0 where
  pub app_id : ℕ
  pub environment_id : ℕ
  pub app_release_id : ℕ
  pub config_revision_id : ℕ
  pub mode : DeploymentMode
  pub target_node_ids : List ℕ
  pub items : List DeploymentPlanItem

-- `DeploymentPlanError(String)`: its fixed messages, and the one that carries a serializer's.
pub data DeploymentPlanError : Type 0 where
  message : String → DeploymentPlanError
  serialize_failed : String → DeploymentPlanError

-- serde_json and sha2, as the planner calls them: the JSON bytes of the hashed document, and the
-- hexadecimal SHA-256 digest of bytes.
pub record Digests : Type 0 where
  pub to_vec : PlanHashDocument → Result (List ℕ) String
  pub sha256_hex : List ℕ → String
