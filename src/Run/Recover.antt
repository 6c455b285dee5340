-- ===== src/Run/Recover.antt =====
-- Recovery after a restart of the console (api/src/deployment_orchestrator.rs,
-- `reconcile_interrupted_runs`).
pub mod Restart
use easy_deploy.Prelude.{
  ℕ, ℤ, String, some, List, [], ◌∷◌, map, Bool, ◌&&◌, keep, length, if◌then◌else◌,
}
use easy_deploy.Prelude.Table.{update_where}
use easy_deploy.Run.Types.{
  RunStatus, UnitStatus, TaskStatus, TaskPhase, StepStatus, EnvironmentRuntime, LastDeployment, lit,
  Message, RunRow, ResultRow, PhaseRow, StepRow, Db, InterruptedRunRecovery,
}
use easy_deploy.Run.Status.Runs
use easy_deploy.Run.Status.Units
use easy_deploy.Run.Status.Tasks
use easy_deploy.Run.Status.Steps
use easy_deploy.Run.Counts.{of_run, task_of_run, environment_of_run, is_id}
use easy_deploy.Run.Cancel.{
  skip_pending, cancel_queued_run, cancel_task, skip_phase, environment_canceled,
}
use easy_deploy.Run.Finalize.{is_running_run}

-- The body of the loop over the queued runs.
unfoldable pub cancel_queued : ℕ → ℕ → Db → Db
cancel_queued now run_id db = record db {
  results =
      skip_pending now run_id "process_restarted_before_start" (lit "控制台进程在部署开始前重启，本单元未执行" ∷ [])
        db.results;
  runs = cancel_queued_run now run_id (lit "控制台进程在部署开始前重启，已安全取消等待中的部署" ∷ []) db.runs;
  tasks =
      update_where (λ task. is_id (task_of_run run_id db.runs) task.id && Tasks.is_open task.status)
        (cancel_task now (lit "控制台进程在部署开始前重启，任务未执行" ∷ [])) db.tasks;
  phases =
      update_where
        (λ phase. is_id (task_of_run run_id db.runs) phase.task_id && Steps.is_open phase.status)
        (skip_phase now) db.phases;
  environments =
      update_where (λ environment. is_id (environment_of_run run_id db.runs) environment.id)
        (environment_canceled now) db.environments;
}

-- SET status = CASE WHEN status = 'running' THEN 'canceled_unknown' ELSE 'not_started' END.
unfoldable pub interrupted_status : UnitStatus → UnitStatus
interrupted_status UnitStatus.running = UnitStatus.canceled_unknown
interrupted_status _ = UnitStatus.not_started

-- The UPDATE of the unit results that are pending or running.
unfoldable pub interrupt_results :
    ℕ → ℕ → String → (UnitStatus → Message) → List ResultRow → List ResultRow
unfolding interrupted_status
interrupt_results now run_id kind summary =
    update_where (λ row. of_run run_id row && Units.is_open row.status)
      λ row. record row {
        status = interrupted_status row.status;
        failure_kind = kind;
        failure_summary = summary row.status;
        finished_at = some now;
        updated_at = now;
      }

unfoldable pub interruption_text : UnitStatus → Message
interruption_text UnitStatus.running = lit "控制台进程重启，无法确认远端执行是否已经停止" ∷ []
interruption_text _ = lit "控制台进程重启，后续部署单元未执行" ∷ []

unfoldable pub fail_step : ℕ → StepRow → StepRow
fail_step now step = record step {
  status = StepStatus.failed;
  exit_code = some (ℤ.pos 1);
  finished_at = some now;
  updated_at = now;
}

-- SET status = CASE WHEN status = 'running' THEN 'failed' ELSE 'skipped' END.
unfoldable pub interrupt_phase : ℕ → PhaseRow → PhaseRow
interrupt_phase now phase = record phase {
  status = if Steps.is_running phase.status then StepStatus.failed else StepStatus.skipped;
  finished_at = some now;
  updated_at = now;
}

unfoldable pub park_run : ℕ → RunRow → RunRow
park_run now run = record run {
  status = RunStatus.reconciling;
  summary = lit "控制台进程重启，必须确认旧执行已停止后才能解锁" ∷ [];
  updated_at = now;
}

-- The body of the loop over the running runs.
unfoldable pub park_running : ℕ → ℕ → Db → Db
park_running now run_id db = record db {
  results = interrupt_results now run_id "process_interrupted" interruption_text db.results;
  steps =
      update_where
        (λ step. is_id (task_of_run run_id db.runs) step.task_id && Steps.is_running step.status)
        (fail_step now) db.steps;
  phases =
      update_where
        (λ phase. is_id (task_of_run run_id db.runs) phase.task_id && Steps.is_open phase.status)
        (interrupt_phase now) db.phases;
  runs = update_where (is_running_run run_id) (park_run now) db.runs;
  tasks =
      update_where
        (λ task. is_id (task_of_run run_id db.runs) task.id && Tasks.is_running task.status)
        (λ task. record task {
          status = TaskStatus.failed;
          phase = TaskPhase.failed;
          summary = lit "控制台进程重启，环境部署进入待核对状态" ∷ [];
          exit_code = some (ℤ.pos 1);
          finished_at = some now;
          updated_at = now;
        })
        db.tasks;
  environments =
      update_where (λ environment. is_id (environment_of_run run_id db.runs) environment.id)
        (λ environment. record environment {
          runtime_status = EnvironmentRuntime.unknown;
          last_deployment_status = LastDeployment.running;
          updated_at = now;
        })
        db.environments;
}

unfoldable pub for_each : (ℕ → Db → Db) → List ℕ → Db → Db
for_each body [] db = db
for_each body (run_id ∷ run_ids) db = for_each body run_ids (body run_id db)

-- SELECT id FROM environment_deployment_runs WHERE status = .. ORDER BY id: the rows stand by id.
unfoldable pub run_ids_with : (RunStatus → Bool) → Db → List ℕ
run_ids_with test db = map (λ run. run.id) (keep (λ run. test run.status) db.runs)

unfoldable pub reconcile_interrupted_runs : ℕ → Db → InterruptedRunRecovery × Db
reconcile_interrupted_runs now db =
    let queued_run_ids = run_ids_with Runs.is_queued db in
    let db₁ = for_each (cancel_queued now) queued_run_ids db in
    let running_run_ids = run_ids_with Runs.is_running db₁ in
    (
      record {
        reconciling_runs = length running_run_ids;
        canceled_queued_runs = length queued_run_ids;
      },
      for_each (park_running now) running_run_ids db₁,
    )
