-- ===== src/Run/Claim.antt =====
-- Claiming a run and starting its units (api/src/deployment_orchestrator.rs,
-- `claim_deployment_run`, `cancellation_requested`, `start_unit_result`).
use Prim.Native.Nat.{max}
use easy_deploy.Prelude.{
  ℕ, Option, none, some, List, [], ◌∷◌, ◌++◌, Bool, not, ◌&&◌, ◌||◌, find, count, if◌then◌else◌,
  ◌==◌, is_some, Result, ok, err, ◌>>=◌, ok_or, eq_int, ◌+◌,
}
use easy_deploy.Prelude.Table.{update_where}
use easy_deploy.Plan.Types.{DeploymentPlanItem}
use easy_deploy.Run.Types.{
  RunStatus, UnitStatus, TaskStatus, TaskPhase, StepStatus, LastDeployment, lit, action,
  OrchestratorError, conflict, not_found, RunRow, ResultRow, TaskRow, PhaseRow, StepRow,
  EnvironmentRow, Db, Tx, ExecutionRunRow,
}
use easy_deploy.Run.Status.Runs
use easy_deploy.Run.Status.Units
use easy_deploy.Run.Status.Tasks

-- WHERE id = ?1, on each table.
abbrev pub run_id_is : ℕ → RunRow → Bool
run_id_is id run = run.id == id

abbrev pub task_id_is : ℕ → TaskRow → Bool
task_id_is id task = task.id == id

abbrev pub environment_id_is : ℕ → EnvironmentRow → Bool
environment_id_is id environment = environment.id == id

-- WHERE id = ?1 AND status = 'queued' AND task_id IS NOT NULL
abbrev pub is_claimable : ℕ → RunRow → Bool
is_claimable id run = run_id_is id run && (Runs.is_queued run.status && is_some run.task_id)

abbrev pub is_queued_run : ℕ → RunRow → Bool
is_queued_run id run = run_id_is id run && Runs.is_queued run.status

abbrev pub is_queued_task : ℕ → TaskRow → Bool
is_queued_task id task = task_id_is id task && Tasks.is_queued task.status

-- The SELECT of a claim: the run joined with its environment.
unfoldable pub select_claimable : ℕ → Db → Option ExecutionRunRow
select_claimable run_id db = elim (find (is_claimable run_id) db.runs) [
  | none ↦ none
  | some run ↦ elim (find (environment_id_is run.environment_id) db.environments) [
    | none ↦ none
    | some environment ↦ elim run.task_id [
      | none ↦ none
      | some task_id ↦ some (record {
        task_id = task_id;
        environment_id = run.environment_id;
        plan_hash = run.plan_hash;
        plan_json = run.plan_json;
        max_parallel_units = environment.max_parallel_units;
        cancel_requested_at = run.cancel_requested_at;
      })
    ]
  ]
]

unfoldable pub start_run : ℕ → RunRow → RunRow
start_run now run = record run {
  status = RunStatus.running;
  started_at = some now;
  updated_at = now;
}

unfoldable pub start_task : ℕ → TaskRow → TaskRow
start_task now task = record task {
  status = TaskStatus.running;
  phase = TaskPhase.executing;
  command = "execute immutable deployment plan";
  started_at = some now;
  updated_at = now;
}

-- The database that a claim commits.
unfoldable pub claimed : ℕ → ℕ → ExecutionRunRow → Db → Db
claimed now run_id run db = record db {
  runs = update_where (is_queued_run run_id) (start_run now) db.runs;
  tasks = update_where (is_queued_task run.task_id) (start_task now) db.tasks;
  environments =
      update_where (environment_id_is run.environment_id)
        (λ environment. record environment {
          last_deployment_status = LastDeployment.running;
          updated_at = now;
        })
        db.environments;
}

unfoldable pub claim_deployment_run : ℕ → ℕ → Db → Tx ExecutionRunRow
claim_deployment_run now run_id db = do
  run ← ok_or (select_claimable run_id db) (conflict (lit "部署执行不存在、缺少任务或已被其他执行器领取" ∷ []))
  let run_claim = count (is_queued_run run_id) db.runs
  let task_claim = count (is_queued_task run.task_id) db.tasks
  (if not (run_claim == 1) || not (task_claim == 1)
      then err (conflict (lit "关联任务已取消或被其他执行器领取" ∷ []))
      else ok (run, claimed now run_id run db))

-- Whether a cancellation was requested, of the run's row.
unfoldable pub cancellation_requested : ℕ → Db → Result Bool OrchestratorError
cancellation_requested run_id db = do
  run ← ok_or (find (run_id_is run_id) db.runs) (not_found (lit "部署执行不存在" ∷ []))
  ok (is_some run.cancel_requested_at)

-- WHERE deployment_run_id = ?1 AND unit_id = ?2
abbrev pub result_is : ℕ → ℕ → ResultRow → Bool
result_is run_id unit_id row = (row.deployment_run_id == run_id) && (row.unit_id == unit_id)

abbrev pub is_pending_result : ℕ → ℕ → ResultRow → Bool
is_pending_result run_id unit_id row = result_is run_id unit_id row && Units.is_pending row.status

unfoldable pub start_result : ℕ → ResultRow → ResultRow
start_result now row = record row {
  status = UnitStatus.running;
  started_at = some now;
  updated_at = now;
}

-- COALESCE(MAX(step_no), 0) + 1 over the steps of a task.
unfoldable pub max_step_no : ℕ → List StepRow → ℕ
max_step_no task_id [] = 0
max_step_no task_id (step ∷ steps) =
    let rest = max_step_no task_id steps in
    if step.task_id == task_id then max step.step_no rest else rest

unfoldable pub phase_of : ℕ → DeploymentPlanItem → List PhaseRow → Option ℕ
phase_of task_id item phases =
    elim (find (λ phase. (phase.task_id == task_id) && eq_int phase.stage_no item.stage_no)
      phases) [ none ↦ none | some phase ↦ some phase.id ]

-- The step that starting a unit inserts.
unfoldable pub new_step : ℕ → ℕ → DeploymentPlanItem → Db → StepRow
new_step now task_id item db = record {
  id = db.next_step;
  task_id = task_id;
  phase_id = phase_of task_id item db.phases;
  step_no = max_step_no task_id db.steps + 1;
  unit_id = item.unit_id;
  title = action item.action ∷ lit "：" ∷ lit item.unit_key ∷ [];
  command = item.action;
  status = StepStatus.running;
  exit_code = none;
  started_at = some now;
  finished_at = none;
  updated_at = now;
}

unfoldable pub started : ℕ → ℕ → ℕ → DeploymentPlanItem → Db → Db
started now run_id task_id item db = record db {
  results = update_where (is_pending_result run_id item.unit_id) (start_result now) db.results;
  steps = db.steps ++ new_step now task_id item db ∷ [];
  next_step = db.next_step + 1;
}

-- Returns the id of the step.
unfoldable pub start_unit_result : ℕ → ℕ → ℕ → DeploymentPlanItem → Db → Tx ℕ
start_unit_result now run_id task_id item db =
    if not (count (is_pending_result run_id item.unit_id) db.results == 1)
    then err (conflict (lit "部署单元 " ∷ lit item.unit_key ∷ lit " 当前状态不能开始执行" ∷ []))
    else ok (db.next_step, started now run_id task_id item db)
