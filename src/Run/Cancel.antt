-- ===== src/Run/Cancel.antt =====
-- A request to cancel (api/src/deployment_orchestrator.rs, `request_cancellation`).
use easy_deploy.Prelude.{
  ℕ, ℤ, String, none, some, List, [], ◌∷◌, ◌++◌, Bool, true, false, not, ◌&&◌, find, if◌then◌else◌,
  ◌==◌, is_some, is_none, ok, err, ◌>>=◌, ok_or,
}
use easy_deploy.Prelude.Table.{update_where}
use easy_deploy.Prelude.Text.{trim, text_is_empty}
use easy_deploy.Run.Types.{
  RunStatus, UnitStatus, TaskStatus, TaskPhase, StepStatus, LastDeployment, lit, run_status,
  Message, validation, conflict, not_found, RunRow, ResultRow, TaskRow, PhaseRow, EnvironmentRow,
  Db, Tx,
}
use easy_deploy.Run.Status.Runs
use easy_deploy.Run.Status.Units
use easy_deploy.Run.Status.Tasks
use easy_deploy.Run.Status.Steps
use easy_deploy.Run.Claim.{run_id_is, task_id_is, is_queued_run, is_queued_task}
use easy_deploy.Run.Counts.{of_run, environment_of_run, is_id}

-- WHERE id = ?1 AND task_id IS NOT NULL
abbrev pub has_task : ℕ → RunRow → Bool
has_task run_id run = run_id_is run_id run && is_some run.task_id

-- WHERE id = ?1 AND status IN ('queued', 'running') AND cancel_requested_at IS NULL
abbrev pub accepts_request : ℕ → RunRow → Bool
accepts_request run_id run =
    run_id_is run_id run && (Runs.is_cancelable run.status && is_none run.cancel_requested_at)

unfoldable pub mark_requested : ℕ → String → RunRow → RunRow
mark_requested now actor run = record run {
  cancel_requested_at = some now;
  cancel_requested_by = actor;
  summary = lit "运维已请求取消，正在终止当前命令并等待执行收口" ∷ [];
  updated_at = now;
}

-- SET status = 'not_started' of the unit results that are pending.
unfoldable pub skip_pending : ℕ → ℕ → String → Message → List ResultRow → List ResultRow
skip_pending now run_id kind summary =
    update_where (λ row. of_run run_id row && Units.is_pending row.status)
      λ row. record row {
        status = UnitStatus.not_started;
        failure_kind = kind;
        failure_summary = summary;
        finished_at = some now;
        updated_at = now;
      }

-- SET status = 'canceled' of a run that is queued.
unfoldable pub cancel_queued_run : ℕ → ℕ → Message → List RunRow → List RunRow
cancel_queued_run now run_id summary = update_where (is_queued_run run_id) λ run. record run {
  status = RunStatus.canceled;
  summary = summary;
  finished_at = some now;
  updated_at = now;
}

unfoldable pub cancel_task : ℕ → Message → TaskRow → TaskRow
cancel_task now summary task = record task {
  status = TaskStatus.canceled;
  phase = TaskPhase.canceled;
  summary = summary;
  exit_code = some (ℤ.pos 1);
  finished_at = some now;
  updated_at = now;
}

unfoldable pub skip_phase : ℕ → PhaseRow → PhaseRow
skip_phase now phase = record phase {
  status = StepStatus.skipped;
  finished_at = some now;
  updated_at = now;
}

unfoldable pub environment_canceled : ℕ → EnvironmentRow → EnvironmentRow
environment_canceled now environment = record environment {
  last_deployment_status = LastDeployment.canceled;
  updated_at = now;
}

-- The statements for a run that nobody has claimed.
unfoldable pub cancel_before_start : ℕ → ℕ → ℕ → String → Db → Db
cancel_before_start now run_id task_id actor db = record db {
  results =
      skip_pending now run_id "canceled_before_start" (lit "部署在执行器领取前已取消，本单元未启动" ∷ []) db.results;
  runs = cancel_queued_run now run_id (lit "部署在执行器领取前已取消，未向目标节点执行命令" ∷ []) db.runs;
  tasks =
      update_where (is_queued_task task_id) (cancel_task now (lit actor ∷ lit " 在部署开始前取消了任务" ∷ []))
        db.tasks;
  phases =
      update_where (λ phase. (phase.task_id == task_id) && Steps.is_open phase.status)
        (skip_phase now) db.phases;
  environments =
      update_where (λ environment. is_id (environment_of_run run_id db.runs) environment.id)
        (environment_canceled now) db.environments;
  logs =
      db.logs
      ++ record {
        task_id = task_id;
        step_id = none;
        content = lit actor ∷ lit " 在执行器领取前取消部署，未执行目标节点命令" ∷ [];
      }
        ∷ [];
}

-- The statements for a run that is executing.
unfoldable pub request_stop : ℕ → ℕ → String → Db → Db
request_stop now task_id actor db = record db {
  tasks =
      update_where (λ task. task_id_is task_id task && Tasks.is_open task.status)
        (λ task. record task {
          summary = lit actor ∷ lit " 请求取消部署，正在等待当前命令退出" ∷ [];
          updated_at = now;
        })
        db.tasks;
  logs =
      db.logs
      ++ record {
        task_id = task_id;
        step_id = none;
        content = lit actor ∷ lit " 请求取消部署；仍在执行的单元将标记为目标状态未知，已完成结果保持不变" ∷ [];
      }
        ∷ [];
}

-- The end of the transaction, once the request may be recorded.
unfoldable pub record_request : ℕ → ℕ → ℕ → RunStatus → String → Db → Db
record_request now run_id task_id status actor db =
    let marked = record db {
      runs = update_where (accepts_request run_id) (mark_requested now actor) db.runs;
    } in
    if Runs.is_queued status
    then cancel_before_start now run_id task_id actor marked
    else request_stop now task_id actor marked

-- The decision on the selected run.
unfoldable pub decide_request : ℕ → ℕ → ℕ → String → RunRow → Db → Tx Bool
decide_request now run_id task_id actor run db =
    if not (Runs.is_cancelable run.status)
    then err (conflict (lit "部署当前状态为 " ∷ run_status run.status ∷ lit "，不能取消" ∷ []))
    else if is_some run.cancel_requested_at
    then ok (false, db)
    else ok (true, record_request now run_id task_id run.status actor db)

unfoldable pub request_cancellation : ℕ → ℕ → String → Db → Tx Bool
request_cancellation now run_id given_actor db =
    let actor = trim given_actor in
    if text_is_empty actor then err (validation (lit "取消部署必须记录操作人" ∷ [])) else do
      run ← ok_or (find (has_task run_id) db.runs) (not_found (lit "部署执行不存在" ∷ []))
      task_id ← ok_or run.task_id (not_found (lit "部署执行不存在" ∷ []))
      decide_request now run_id task_id actor run db
