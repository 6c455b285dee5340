-- ===== src/Run/Finalize.antt =====
-- The end of an execution (api/src/deployment_orchestrator.rs, `finalize_deployment_run`).
use easy_deploy.Prelude.{
  ℕ, ℤ, some, List, [], ◌∷◌, ◌++◌, Bool, true, false, not, ◌&&◌, ◌||◌, all, any, if◌then◌else◌,
  ◌==◌, ltb, is_none, eq_int, ok, ◌>>=◌,
}
use easy_deploy.Prelude.Table.{update_where}
use easy_deploy.Plan.Types.{DeploymentPlan, DeploymentPlanItem}
use easy_deploy.Run.Types.{
  RunStatus, TaskStatus, TaskPhase, StepStatus, EnvironmentRuntime, LastDeployment, lit, Message,
  RunRow, ResultRow, TaskRow, PhaseRow, EnvironmentRow, Db, Tx, DeploymentRunOutcome,
}
use easy_deploy.Run.Status.Runs
use easy_deploy.Run.Status.Units
use easy_deploy.Run.Claim.{run_id_is, environment_id_is}
use easy_deploy.Run.Counts.{
  done_count, missed_count, unknown_count, total_count, counts_text, task_of_run, is_id,
  require_rows,
}

-- The status of a run from its counts: done, missed, unknown.
unfoldable pub final_status : ℕ → ℕ → ℕ → Bool → RunStatus
final_status done missed unknown cancellation_requested =
    if (missed == 0) && (unknown == 0)
    then RunStatus.success
    else if ltb 0 done
    then RunStatus.partial_failed
    else if cancellation_requested || ltb 0 unknown
    then RunStatus.canceled
    else RunStatus.all_failed

-- `match (status, cancellation_requested)`.
unfoldable pub final_task_status : RunStatus → Bool → TaskStatus
final_task_status status cancellation_requested =
    if Runs.is_success status
    then TaskStatus.success
    else if cancellation_requested || Runs.is_canceled status
    then TaskStatus.canceled
    else TaskStatus.failed

unfoldable pub final_task_phase : TaskStatus → TaskPhase
final_task_phase TaskStatus.success = TaskPhase.completed
final_task_phase TaskStatus.canceled = TaskPhase.canceled
final_task_phase _ = TaskPhase.failed

unfoldable pub is_partial : RunStatus → Bool
is_partial RunStatus.partial_failed = true
is_partial _ = false

unfoldable pub final_environment_runtime : RunStatus → List DeploymentPlanItem → EnvironmentRuntime
final_environment_runtime status items =
    if Runs.is_success status
    then (if all (λ item. is_none item.unit_release_id) items
        then EnvironmentRuntime.stopped
        else EnvironmentRuntime.running)
    else if is_partial status
    then EnvironmentRuntime.partial_unhealthy
    else EnvironmentRuntime.unknown

-- The text that `last_deployment_status` takes from a run's final status.
unfoldable pub last_deployment : RunStatus → LastDeployment
last_deployment RunStatus.success = LastDeployment.success
last_deployment RunStatus.partial_failed = LastDeployment.partial_failed
last_deployment RunStatus.all_failed = LastDeployment.all_failed
last_deployment RunStatus.canceled = LastDeployment.canceled
last_deployment _ = LastDeployment.running

-- The results of the runs of a task, in one stage: the join in the EXISTS subqueries.
unfoldable pub in_stage : PhaseRow → List RunRow → ResultRow → Bool
in_stage phase runs row =
    eq_int row.stage_no phase.stage_no
    && any (λ run. run_id_is row.deployment_run_id run && is_id run.task_id phase.task_id) runs

unfoldable pub final_phase_status : PhaseRow → List RunRow → List ResultRow → StepStatus
final_phase_status phase runs results =
    if any (λ row. in_stage phase runs row && Units.is_broken row.status) results
    then StepStatus.failed
    else if any (λ row. in_stage phase runs row && Units.is_not_started row.status) results
    then StepStatus.skipped
    else StepStatus.success

unfoldable pub finish_run : ℕ → RunStatus → Message → RunRow → RunRow
finish_run now status summary run = record run {
  status = status;
  summary = summary;
  finished_at = some now;
  updated_at = now;
}

unfoldable pub finish_task : ℕ → TaskStatus → Message → TaskRow → TaskRow
finish_task now status summary task = record task {
  status = status;
  phase = final_task_phase status;
  summary = summary;
  exit_code = some (elim status [ TaskStatus.success ↦ ℤ.pos 0 | _ ↦ ℤ.pos 1 ]);
  finished_at = some now;
  updated_at = now;
}

unfoldable pub finish_environment : ℕ → DeploymentPlan → RunStatus → EnvironmentRow → EnvironmentRow
finish_environment now plan status environment =
    if Runs.is_success status
    then record environment {
      current_app_release_id = some plan.app_release_id;
      current_config_revision_id = some plan.config_revision_id;
      runtime_status = final_environment_runtime status plan.items;
      last_deployment_status = last_deployment status;
      updated_at = now;
    }
    else record environment {
      runtime_status = final_environment_runtime status plan.items;
      last_deployment_status = last_deployment status;
      updated_at = now;
    }

abbrev pub is_running_run : ℕ → RunRow → Bool
is_running_run run_id run = run_id_is run_id run && Runs.is_running run.status

-- The UPDATEs of the closing transaction.
unfoldable pub close_run : ℕ → ℕ → DeploymentPlan → RunStatus → Bool → Message → Db → Db
close_run now run_id plan status cancellation_requested summary db = record db {
  runs = update_where (is_running_run run_id) (finish_run now status summary) db.runs;
  tasks =
      update_where (λ task. is_id (task_of_run run_id db.runs) task.id)
        (finish_task now (final_task_status status cancellation_requested) summary) db.tasks;
  phases =
      update_where (λ phase. is_id (task_of_run run_id db.runs) phase.task_id)
        (λ phase. record phase {
          status = final_phase_status phase db.runs db.results;
          finished_at = some now;
          updated_at = now;
        })
        db.phases;
  environments =
      update_where (environment_id_is plan.environment_id) (finish_environment now plan status)
        db.environments;
}

-- The summary, with its remark on a cancellation.
unfoldable pub final_summary : ℕ → RunStatus → Bool → List ResultRow → Message
final_summary run_id status cancellation_requested results =
    let counts =
      lit "共 "
      ∷ counts_text (total_count run_id results) (done_count run_id results)
          (missed_count run_id results) (unknown_count run_id results) in
    if cancellation_requested && not (Runs.is_success status)
    then counts ++ lit "；部署由运维主动取消" ∷ []
    else counts

unfoldable pub run_verdict : ℕ → Bool → List ResultRow → RunStatus
run_verdict run_id cancellation_requested results =
    final_status (done_count run_id results) (missed_count run_id results)
      (unknown_count run_id results) cancellation_requested

unfoldable pub finalize_deployment_run :
    ℕ → ℕ → DeploymentPlan → Bool → Db → Tx DeploymentRunOutcome
finalize_deployment_run now run_id plan cancellation_requested db = do
  _ ← require_rows run_id db.results
  let status = run_verdict run_id cancellation_requested db.results
  let summary = final_summary run_id status cancellation_requested db.results
  ok (
    record { deployment_run_id = run_id; status = status; summary = summary },
    close_run now run_id plan status cancellation_requested summary db,
  )
