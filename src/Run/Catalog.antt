-- ===== src/Run/Catalog.antt =====
-- Loading the plan of an environment and a release (api/src/deployment_orchestrator.rs,
-- `load_deployment_plan` and `deployment_target_fingerprint`). The tables that the orchestrator
-- only reads stand in `Catalog`.
use Prim.Native.Char.{code}
use easy_deploy.Prelude.{
  ℕ, zero, suc, ◌+◌, ◌/◌, ◌%◌, ◌^◌, ℤ, String, Option, none, some, List, [], ◌∷◌, ◌++◌, map, Bool,
  true, false, ◌&&◌, ◌||◌, keep, find, contains, length, if◌then◌else◌, ◌==◌, ltb, leb, lt_int,
  eq_int, Result, ◌>>=◌, map_err, ok_or,
}
use easy_deploy.Prelude.Sorting.{sort_by}
use easy_deploy.Prelude.Ids.{sort_ids}
use easy_deploy.Plan.Types.{
  DeploymentMode, TargetUnitState, CurrentUnitNodeState, DeploymentPlanInput, DeploymentPlan,
  DeploymentPlanError, message, serialize_failed, Digests,
}
use easy_deploy.Plan.Build.{build_deployment_plan}
use easy_deploy.Run.Types.{
  EnvironmentStatus, RuntimeStateRow, OrchestratorError, not_found, validation, lit, Db,
}
use easy_deploy.Run.Claim.{environment_id_is}

-- A row of `app_releases` with its manifest: `ready` says that the manifest is immutable.
pub record ReleaseRow : Type 0 where
  pub id : ℕ
  pub app_id : ℕ
  pub ready : Bool

-- A row of `app_release_environment_configs` with the revision that it selects.
pub record SelectionRow : Type 0 where
  pub app_release_id : ℕ
  pub environment_id : ℕ
  pub config_revision_id : ℕ
  pub revision_app_id : ℕ
  pub config_hash : String

-- A row of `app_environment_targets`.
pub record TargetRow : Type 0 where
  pub environment_id : ℕ
  pub node_id : ℕ

-- A row of `app_release_units` joined with its unit.
pub record ReleaseUnitRow : Type 0 where
  pub app_release_id : ℕ
  pub unit_app_id : ℕ
  pub unit_id : ℕ
  pub unit_key : String
  pub unit_release_id : Option ℕ
  pub desired_status : String
  pub stage_no : ℤ
  pub unit_order : ℤ
  pub removal_order : ℤ
  pub target_fingerprint : String

-- A row of `deployment_unit_releases`.
pub record UnitReleaseRow : Type 0 where
  pub id : ℕ
  pub version : String
  pub version_code : ℤ

pub record Catalog : Type 0 where
  pub releases : List ReleaseRow
  pub selections : List SelectionRow
  pub targets : List TargetRow
  pub release_units : List ReleaseUnitRow
  pub unit_releases : List UnitReleaseRow

-- The UTF-8 bytes of a text.
unfoldable pub utf8 : ℕ → List ℕ
utf8 c =
    if ltb c 0x80
    then c ∷ []
    else if ltb c 0x800
    then (0xC0 + c / 64) ∷ (0x80 + c % 64) ∷ []
    else if ltb c 0x10000
    then (0xE0 + c / 4096) ∷ (0x80 + c / 64 % 64) ∷ (0x80 + c % 64) ∷ []
    else (0xF0 + c / 262144) ∷ (0x80 + c / 4096 % 64) ∷ (0x80 + c / 64 % 64) ∷ (0x80 + c % 64) ∷ []

unfoldable pub as_bytes : String → List ℕ
unfolding utf8
as_bytes String.[] = []
as_bytes (String.◌∷◌ c s) = utf8 (code c) ++ as_bytes s

-- The `n` low bytes of a number, the highest first.
unfoldable pub be_bytes : ℕ → ℕ → List ℕ
be_bytes zero x = []
be_bytes (suc n) x = x / 256 ^ n % 256 ∷ be_bytes n x

-- What the fingerprint hashes: each text behind its length in eight bytes.
unfoldable pub fingerprint_bytes : String → String → List ℕ
unfolding as_bytes be_bytes
fingerprint_bytes unit_fingerprint config_hash =
    let unit_bytes = as_bytes unit_fingerprint in
    let config_bytes = as_bytes config_hash in
    be_bytes 8 (length unit_bytes)
    ++ (unit_bytes ++ (be_bytes 8 (length config_bytes) ++ config_bytes))

unfoldable pub deployment_target_fingerprint : Digests → String → String → String
deployment_target_fingerprint digests unit_fingerprint config_hash =
    digests.sha256_hex (fingerprint_bytes unit_fingerprint config_hash)

unfoldable pub is_enabled : EnvironmentStatus → Bool
is_enabled EnvironmentStatus.disabled = false
is_enabled _ = true

-- `PlanIdentityRow`.
pub record PlanIdentity : Type 0 where
  pub app_id : ℕ
  pub config_revision_id : ℕ
  pub config_hash : String

-- The join that identifies the plan.
unfoldable pub select_identity : Catalog → ℕ → ℕ → Db → Option PlanIdentity
select_identity catalog environment_id app_release_id db =
    elim (find
      (λ environment. environment_id_is environment_id environment && is_enabled environment.status)
      db.environments) [
        | none ↦ none
        | some environment ↦
            elim (find
              (λ release.
                (release.id == app_release_id)
                && ((release.app_id == environment.app_id) && release.ready))
              catalog.releases) [
                | none ↦ none
                | some release ↦
                    elim (find
                      (λ selection.
                        (selection.app_release_id == app_release_id)
                        && ((selection.environment_id == environment_id)
                            && (selection.revision_app_id == environment.app_id)))
                      catalog.selections) [
                        | none ↦ none
                        | some selection ↦ some (record {
                          app_id = environment.app_id;
                          config_revision_id = selection.config_revision_id;
                          config_hash = selection.config_hash;
                        })
                      ]
              ]
      ]

-- The LEFT JOIN with the unit's release.
unfoldable pub unit_release : Option ℕ → List UnitReleaseRow → Option UnitReleaseRow
unit_release none releases = none
unit_release (some id) releases = find (λ release. release.id == id) releases

unfoldable pub target_unit : Digests → Catalog → String → ReleaseUnitRow → TargetUnitState
target_unit digests catalog config_hash row =
    let release = unit_release row.unit_release_id catalog.unit_releases in
    record {
      unit_id = row.unit_id;
      unit_key = row.unit_key;
      unit_release_id = row.unit_release_id;
      release_version = elim release [ none ↦ none | some r ↦ some r.version ];
      release_version_code = elim release [ none ↦ none | some r ↦ some r.version_code ];
      desired_status = row.desired_status;
      stage_no = row.stage_no;
      unit_order = row.unit_order;
      removal_order = row.removal_order;
      target_fingerprint = deployment_target_fingerprint digests row.target_fingerprint config_hash;
    }

unfoldable pub current_state : Catalog → RuntimeStateRow → CurrentUnitNodeState
current_state catalog row = record {
  unit_id = row.unit_id;
  node_id = row.node_id;
  runtime_status = row.runtime_status;
  active_unit_release_id = row.active_unit_release_id;
  active_version_code = elim (unit_release row.active_unit_release_id catalog.unit_releases) [
    | none ↦ none
    | some r ↦ some r.version_code
  ];
  active_fingerprint = row.active_fingerprint;
  container_version_label = row.container_version_label;
}

-- ORDER BY stage_no, unit_order, units.id.
unfoldable pub unit_row_le : ReleaseUnitRow → ReleaseUnitRow → Bool
unit_row_le a b =
    lt_int a.stage_no b.stage_no
    || (eq_int a.stage_no b.stage_no
        && (lt_int a.unit_order b.unit_order
            || (eq_int a.unit_order b.unit_order && leb a.unit_id b.unit_id)))

-- ORDER BY unit_id, node_id.
unfoldable pub state_row_le : RuntimeStateRow → RuntimeStateRow → Bool
state_row_le a b = ltb a.unit_id b.unit_id || ((a.unit_id == b.unit_id) && leb a.node_id b.node_id)

unfoldable pub target_nodes : Catalog → ℕ → List ℕ
target_nodes catalog environment_id = sort_ids (
    map (λ target. target.node_id)
      (keep (λ target. target.environment_id == environment_id) catalog.targets))

unfoldable pub plan_input :
    Digests → Catalog → ℕ → ℕ → DeploymentMode → PlanIdentity → Db → DeploymentPlanInput
plan_input digests catalog environment_id app_release_id mode identity db =
    let nodes = target_nodes catalog environment_id in
    record {
      app_id = identity.app_id;
      environment_id = environment_id;
      app_release_id = app_release_id;
      config_revision_id = identity.config_revision_id;
      mode = mode;
      target_node_ids = nodes;
      target_units = map (target_unit digests catalog identity.config_hash) (
          sort_by unit_row_le (
            keep
              (λ row.
                (row.app_release_id == app_release_id) && (row.unit_app_id == identity.app_id))
              catalog.release_units));
      current_states = map (current_state catalog) (
          sort_by state_row_le (
            keep (λ row. (row.environment_id == environment_id) && contains row.node_id nodes)
              db.states));
    }

-- `DeploymentPlanError` as an orchestrator error.
unfoldable pub from_plan_error : DeploymentPlanError → OrchestratorError
from_plan_error (message text) = validation (lit text ∷ [])
from_plan_error (serialize_failed text) = validation (lit "生成部署计划失败: " ∷ lit text ∷ [])

unfoldable pub load_deployment_plan :
    Digests → Catalog → ℕ → ℕ → DeploymentMode → Db → Result DeploymentPlan OrchestratorError
load_deployment_plan digests catalog environment_id app_release_id mode db = do
  identity ←
      ok_or (select_identity catalog environment_id app_release_id db)
        (not_found (lit "环境、应用版本或对应配置版本不存在或不可部署" ∷ []))
  map_err from_plan_error (
      build_deployment_plan digests
        (plan_input digests catalog environment_id app_release_id mode identity db))
