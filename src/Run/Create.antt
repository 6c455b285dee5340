-- ===== src/Run/Create.antt =====
-- Creating a run (api/src/deployment_orchestrator.rs, `create_run`).
pub mod Added
pub mod Confirmed
use easy_deploy.Prelude.{
  ℕ, suc, ◌+◌, ℤ, String, Option, none, some, List, [], ◌∷◌, ◌++◌, map, Bool, false, not, ◌&&◌,
  ◌||◌, any, if◌then◌else◌, ◌==◌, le_int, eq_int, is_some, str_eq, Result, ok, err, ◌>>=◌, map_err,
}
use easy_deploy.Prelude.Sorting.{sort_by}
use easy_deploy.Prelude.Text.{trim, text_is_empty}
use easy_deploy.Plan.Types.{DeploymentPlan, DeploymentPlanItem, Digests}
use easy_deploy.Plan.Waves.{is_skip}
use easy_deploy.Run.Types.{
  RunStatus, UnitStatus, TaskStatus, TaskPhase, StepStatus, OrchestratorError, validation, conflict,
  lit, num, int, run_status, RunRow, ResultRow, TaskRow, PhaseRow, Db, Tx, CreateDeploymentRunInput,
  CreatedDeploymentRun,
}
use easy_deploy.Run.Status.Runs
use easy_deploy.Run.Status.Tasks
use easy_deploy.Run.Catalog.{Catalog, load_deployment_plan}

-- serde_json, as it writes a plan to store.
abbrev pub PlanWriter : Type 0
PlanWriter = DeploymentPlan → Result String String

-- environment_id = ?1 AND status IN ('queued', 'running', 'reconciling')
abbrev pub is_active_in : ℕ → RunRow → Bool
is_active_in environment_id run =
    (run.environment_id == environment_id) && Runs.is_active run.status

-- ORDER BY id DESC LIMIT 1: the last row that fits, in a table that stands by id.
unfoldable pub last_active : ℕ → List RunRow → Option RunRow
last_active environment_id [] = none
last_active environment_id (run ∷ runs) =
    let later = last_active environment_id runs in
    if is_some later then later else if is_active_in environment_id run then some run else none

-- The task kinds of the trigger that guards an environment.
unfoldable pub is_deploy_kind : String → Bool
is_deploy_kind kind =
    str_eq kind "compose.up"
    || (str_eq kind "compose.down"
        || (str_eq kind "compose.restart"
            || (str_eq kind "binary.restart"
                || (str_eq kind "binary.stop"
                    || (str_eq kind "artifact.git_publish"
                        || (str_eq kind "release.deploy"
                            || (str_eq kind "release.rollback"
                                || str_eq kind "release.manual_apply")))))))

abbrev pub is_for : ℕ → Option ℕ → Bool
is_for environment_id none = false
is_for environment_id (some id) = id == environment_id

-- The trigger refuses the INSERT of a second open deploying task of an environment.
unfoldable pub task_refused : ℕ → List TaskRow → Bool
unfolding is_deploy_kind
task_refused environment_id = any λ task.
    Tasks.is_open task.status
    && (is_deploy_kind task.task_kind && is_for environment_id task.environment_id)

unfoldable pub new_task : ℕ → ℕ → CreateDeploymentRunInput → DeploymentPlan → TaskRow
new_task now id input plan = record {
  id = id;
  task_kind = "release.deploy";
  title = lit "部署应用版本 #" ∷ num input.app_release_id ∷ lit " 到环境 #" ∷ num input.environment_id ∷ [];
  app_id = some plan.app_id;
  release_id = some input.app_release_id;
  environment_id = some input.environment_id;
  status = TaskStatus.queued;
  phase = TaskPhase.queued;
  command = "";
  summary = [];
  exit_code = none;
  created_by = trim input.created_by;
  started_at = none;
  finished_at = none;
  updated_at = now;
}

unfoldable pub new_run : ℕ → ℕ → ℕ → CreateDeploymentRunInput → DeploymentPlan → String → RunRow
new_run now id task_id input plan plan_json = record {
  id = id;
  app_id = plan.app_id;
  environment_id = plan.environment_id;
  app_release_id = plan.app_release_id;
  config_revision_id = plan.config_revision_id;
  task_id = some task_id;
  deployment_mode = plan.mode;
  plan_hash = plan.plan_hash;
  plan_json = plan_json;
  status = RunStatus.queued;
  summary = [];
  created_by = trim input.created_by;
  started_at = none;
  finished_at = none;
  updated_at = now;
  cancel_requested_at = none;
  cancel_requested_by = "";
  reconciled_at = none;
  reconciled_by = "";
  reconciliation_note = "";
}

unfoldable pub dedup_after : ℤ → List ℤ → List ℤ
dedup_after x [] = []
dedup_after x (y ∷ ys) = let rest = dedup_after y ys in if eq_int x y then rest else y ∷ rest

-- `phase_numbers`: the stages of the plan, ascending, each once.
unfoldable pub phase_numbers : List DeploymentPlanItem → List ℤ
phase_numbers items = elim (sort_by le_int (map (λ item. item.stage_no) items)) [
  | [] ↦ []
  | stage ∷ stages ↦ stage ∷ dedup_after stage stages
]

-- The rows of the phases: the next id and the number of the next phase.
unfoldable pub new_phases : ℕ → ℕ → ℕ → ℕ → List ℤ → List PhaseRow
new_phases now task_id id phase_no [] = []
new_phases now task_id id phase_no (stage_no ∷ stages) =
    record {
      id = id;
      task_id = task_id;
      phase_no = phase_no;
      stage_no = stage_no;
      title = lit "部署阶段 " ∷ int stage_no ∷ [];
      status = StepStatus.pending;
      finished_at = none;
      updated_at = now;
    }
    ∷ new_phases now task_id (suc id) (suc phase_no) stages

unfoldable pub new_result : ℕ → ℕ → DeploymentPlanItem → ResultRow
new_result now run_id item = record {
  deployment_run_id = run_id;
  unit_id = item.unit_id;
  unit_release_id = item.unit_release_id;
  stage_no = item.stage_no;
  action = item.action;
  status = if is_skip item.action then UnitStatus.skipped else UnitStatus.pending;
  target_fingerprint = item.target_fingerprint;
  previous_fingerprint = item.previous_fingerprint;
  failure_kind = "";
  failure_summary = [];
  exit_code = none;
  started_at = none;
  finished_at = none;
  updated_at = now;
}

abbrev pub count_stages : List ℤ → ℕ
count_stages [] = 0
count_stages (s ∷ ss) = suc (count_stages ss)

-- The database that a creation commits.
unfoldable pub created : ℕ → CreateDeploymentRunInput → DeploymentPlan → String → Db → Db
created now input plan plan_json db = record db {
  tasks = db.tasks ++ new_task now db.next_task input plan ∷ [];
  runs = db.runs ++ new_run now db.next_run db.next_task input plan plan_json ∷ [];
  phases = db.phases ++ new_phases now db.next_task db.next_phase 1 (phase_numbers plan.items);
  results = db.results ++ map (new_result now db.next_run) plan.items;
  next_task = db.next_task + 1;
  next_run = db.next_run + 1;
  next_phase = db.next_phase + count_stages (phase_numbers plan.items);
}

-- The INSERTs, with the trigger that may refuse the first, and the JSON of the plan. The unique
-- index on active runs and the unit's primary key repeat what was checked.
unfoldable pub insert_run :
    PlanWriter → ℕ → CreateDeploymentRunInput → DeploymentPlan → Db → Tx CreatedDeploymentRun
insert_run write now input plan db =
    if task_refused input.environment_id db.tasks
    then err (conflict (lit "当前环境已有部署流程正在进行" ∷ []))
    else do
      plan_json ← map_err (λ error. validation (lit error ∷ [])) (write plan)
      ok (
        record { deployment_run_id = db.next_run; task_id = db.next_task; plan = plan },
        created now input plan plan_json db,
      )

unfoldable pub active_conflict : RunRow → OrchestratorError
active_conflict run =
    conflict
      (lit "当前环境已有部署流程正在进行（部署 #" ∷ num run.id ∷ lit "，状态 " ∷ run_status run.status ∷ lit "）" ∷ [])

-- The rest of the transaction, once no run is active.
unfoldable pub plan_and_insert :
    Digests → PlanWriter → Catalog → ℕ → CreateDeploymentRunInput → Db → Tx CreatedDeploymentRun
plan_and_insert digests write catalog now input db = do
  plan ←
      load_deployment_plan digests catalog input.environment_id input.app_release_id input.mode db
  (if not (str_eq plan.plan_hash input.expected_plan_hash)
      then err (conflict (lit "部署目标或运行状态已变化，请重新预览并确认" ∷ []))
      else insert_run write now input plan db)

unfoldable pub create_run :
    Digests → PlanWriter → Catalog → ℕ → CreateDeploymentRunInput → Db → Tx CreatedDeploymentRun
create_run digests write catalog now input db =
    if text_is_empty (trim input.expected_plan_hash)
    then err (validation (lit "确认部署时必须提交预览 plan hash" ∷ []))
    else elim (last_active input.environment_id db.runs) [
      | some run ↦ err (active_conflict run)
      | none ↦ plan_and_insert digests write catalog now input db
    ]
