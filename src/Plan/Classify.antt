-- ===== src/Plan/Classify.antt =====
-- The action of one deployment unit (api/src/deployment_orchestrator.rs, `classify_action` and
-- `common_previous_fingerprint`).
pub mod Verdicts
pub mod Versions
use easy_deploy.Prelude.{
  ℕ, ℤ, String, Option, none, some, List, [], ◌∷◌, Bool, true, false, not, ◌&&◌, ◌||◌, all, any,
  length, is_empty, if◌then◌else◌, ◌==◌, str_eq, lt_int,
}
use easy_deploy.Plan.Types.{
  DeploymentMode, normal, force, DeploymentAction, deploy, skip, start, stop, upgrade, downgrade,
  restore, TargetUnitState, CurrentUnitNodeState,
}

-- Equality of optional ids and of optional texts, as `==` on `Option` decides it.
unfoldable pub opt_id_eq : Option ℕ → Option ℕ → Bool
opt_id_eq none none = true
opt_id_eq (some a) (some b) = a == b
opt_id_eq _ _ = false

unfoldable pub opt_text_eq : Option String → Option String → Bool
opt_text_eq none none = true
opt_text_eq (some a) (some b) = str_eq a b
opt_text_eq _ _ = false

unfoldable pub is_force : DeploymentMode → Bool
is_force normal = false
is_force force = true

abbrev pub has_status : String → CurrentUnitNodeState → Bool
has_status s state = str_eq state.runtime_status s

-- The closure of `fully_matching`.
unfoldable pub matches_target : TargetUnitState → CurrentUnitNodeState → Bool
matches_target target state =
    has_status "healthy" state
    && (opt_id_eq state.active_unit_release_id target.unit_release_id
        && (str_eq state.active_fingerprint target.target_fingerprint
            && opt_text_eq (some state.container_version_label) target.release_version))

-- `!matches!(runtime_status, "healthy" | "stopped")`.
unfoldable pub untrusted : CurrentUnitNodeState → Bool
untrusted state = not (has_status "healthy" state || has_status "stopped" state)

-- The version codes that the nodes report; a node with none is left out.
unfoldable pub current_codes : List CurrentUnitNodeState → List ℤ
current_codes [] = []
current_codes (s ∷ ss) =
    let rest = current_codes ss in elim s.active_version_code [ none ↦ rest | some c ↦ c ∷ rest ]

-- The comparison of version codes that ends `classify_action`.
unfoldable pub classify_versions : Option ℤ → List ℤ → DeploymentAction × String
classify_versions none codes = (deploy, "目标指纹、容器 label 或节点版本不一致")
classify_versions (some target_code) codes =
    if all (λ code. lt_int code target_code) codes
    then (upgrade, "目标发布包版本更高")
    else if all (λ code. lt_int target_code code) codes
    then (downgrade, "目标发布包版本更低")
    else (deploy, "目标指纹、容器 label 或节点版本不一致")

-- The branch of a disabled unit.
unfoldable pub classify_disabled : List ℕ → List CurrentUnitNodeState → DeploymentAction × String
classify_disabled target_node_ids states =
    let already_stopped =
      (length states == length target_node_ids) && all (has_status "stopped") states in
    if already_stopped || is_empty states then (skip, "部署单元已经停止") else (stop, "目标应用版本停用该单元")

-- The branches in which every target node has a state.
unfoldable pub classify_covered :
    TargetUnitState → List CurrentUnitNodeState → DeploymentAction × String
unfolding classify_versions
classify_covered target states =
    if all (matches_target target) states
    then (skip, "版本、配置、容器 label 和健康状态均与目标一致")
    else if any untrusted states
    then (deploy, "运行状态或健康探测不可信，不能跳过")
    else if all (has_status "stopped") states
    then (restore, "部署单元已停止，需要恢复目标版本")
    else classify_versions target.release_version_code (current_codes states)

unfoldable pub classify_action :
    DeploymentMode
    → TargetUnitState
    → List ℕ
    → List CurrentUnitNodeState
    → DeploymentAction × String
unfolding classify_disabled is_force
classify_action mode target target_node_ids states =
    if str_eq target.desired_status "disabled"
    then classify_disabled target_node_ids states
    else if is_force mode
    then (deploy, "强制全量部署重新执行启用单元")
    else if not (length states == length target_node_ids)
    then (if is_empty states then (start, "目标节点尚未部署该单元") else (deploy, "部分目标节点缺少可信运行状态"))
    else classify_covered target states

unfoldable pub common_previous_fingerprint : List CurrentUnitNodeState → String
common_previous_fingerprint [] = ""
common_previous_fingerprint (first ∷ rest) =
    if all (λ state. str_eq state.active_fingerprint first.active_fingerprint) (first ∷ rest)
    then first.active_fingerprint
    else ""
