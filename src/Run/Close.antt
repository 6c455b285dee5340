-- ===== src/Run/Close.antt =====
-- Closing a run that was interrupted or broke down (api/src/deployment_orchestrator.rs,
-- `confirm_interrupted_run_stopped` and `fail_run_on_internal_error`).
use easy_deploy.Prelude.{
  ℕ, ℤ, String, Option, none, some, List, [], ◌∷◌, ◌++◌, Bool, true, false, not, ◌&&◌, ◌||◌, find,
  if◌then◌else◌, ◌==◌, ltb, ok, err, ◌>>=◌, ok_or,
}
use easy_deploy.Prelude.Table.{update_where}
use easy_deploy.Prelude.Text.{trim, text_is_empty, char_count, take_chars}
use easy_deploy.Run.Types.{
  RunStatus, TaskStatus, TaskPhase, EnvironmentRuntime, lit, run_status, Message, OrchestratorError,
  validation, conflict, not_found, RunRow, ResultRow, TaskRow, Db, Tx, DeploymentRunOutcome,
}
use easy_deploy.Run.Status.Runs
use easy_deploy.Run.Status.Tasks
use easy_deploy.Run.Status.Steps
use easy_deploy.Run.Claim.{run_id_is, task_id_is, environment_id_is}
use easy_deploy.Run.Counts.{
  done_count, missed_count, unknown_count, total_count, counts_text, require_rows,
}
use easy_deploy.Run.Finalize.{last_deployment}
use easy_deploy.Run.Recover.{interrupt_results, interrupt_phase, fail_step}

-- The status of a run that did not end by itself, from its counts: done, unknown.
unfoldable pub broken_status : ℕ → ℕ → RunStatus
broken_status done unknown =
    if ltb 0 done
    then RunStatus.partial_failed
    else if ltb 0 unknown
    then RunStatus.canceled
    else RunStatus.all_failed

unfoldable pub broken_task_status : RunStatus → TaskStatus
broken_task_status status =
    if Runs.is_canceled status then TaskStatus.canceled else TaskStatus.failed

unfoldable pub broken_task_phase : RunStatus → TaskPhase
broken_task_phase status = if Runs.is_canceled status then TaskPhase.canceled else TaskPhase.failed

abbrev pub is_reconciling_run : ℕ → RunRow → Bool
is_reconciling_run run_id run = run_id_is run_id run && Runs.is_reconciling run.status

unfoldable pub confirm_run : ℕ → RunStatus → Message → String → String → RunRow → RunRow
confirm_run now status summary actor note run = record run {
  status = status;
  summary = summary;
  reconciled_at = some now;
  reconciled_by = actor;
  reconciliation_note = note;
  finished_at = some now;
  updated_at = now;
}

abbrev pub or_now : Option ℕ → ℕ → Option ℕ
or_now none now = some now
or_now (some t) now = some t

unfoldable pub confirm_task : ℕ → RunStatus → Message → TaskRow → TaskRow
confirm_task now status summary task = record task {
  status = broken_task_status status;
  phase = broken_task_phase status;
  summary = summary;
  exit_code = some (ℤ.pos 1);
  finished_at = or_now task.finished_at now;
  updated_at = now;
}

-- `if let Some(task_id) = task_id`.
unfoldable pub confirm_tasks : ℕ → RunStatus → Message → String → String → Option ℕ → Db → Db
confirm_tasks now status summary actor note none db = db
confirm_tasks now status summary actor note (some task_id) db = record db {
  tasks = update_where (task_id_is task_id) (confirm_task now status summary) db.tasks;
  logs =
      db.logs
      ++ record {
        task_id = task_id;
        step_id = none;
        content = lit actor ∷ lit " 确认旧执行已停止：" ∷ lit note ∷ [];
      }
        ∷ [];
}

-- The UPDATEs of a confirmation.
unfoldable pub confirmed : ℕ → RunRow → RunStatus → Message → String → String → Db → Db
confirmed now run status summary actor note db =
    let db₁ = record db {
      runs =
          update_where (is_reconciling_run run.id) (confirm_run now status summary actor note)
            db.runs;
    } in
    let db₂ = confirm_tasks now status summary actor note run.task_id db₁ in
    record db₂ {
      environments =
          update_where (environment_id_is run.environment_id)
            (λ environment. record environment {
              runtime_status = EnvironmentRuntime.unknown;
              last_deployment_status = last_deployment status;
              updated_at = now;
            })
            db₂.environments;
    }

unfoldable pub confirmation_text : ℕ → List ResultRow → String → Message
confirmation_text run_id results note =
    (lit "人工确认旧执行已停止；共 "
      ∷ counts_text (total_count run_id results) (done_count run_id results)
          (missed_count run_id results) (unknown_count run_id results))
    ++ lit "；核对说明：" ∷ lit note ∷ []

unfoldable pub confirm_interrupted_run_stopped :
    ℕ → ℕ → String → String → Db → Tx DeploymentRunOutcome
confirm_interrupted_run_stopped now run_id given_actor given_note db =
    let actor = trim given_actor in
    let note = trim given_note in
    if text_is_empty actor
    then err (validation (lit "人工核对必须记录操作人" ∷ []))
    else if text_is_empty note || ltb 1000 (char_count note)
    then err (validation (lit "人工核对说明不能为空且不能超过 1000 个字符" ∷ []))
    else do
      run ← ok_or (find (run_id_is run_id) db.runs) (not_found (lit "部署执行不存在" ∷ []))
      (if not (Runs.is_reconciling run.status)
          then err (conflict (lit "部署当前状态为 " ∷ run_status run.status ∷ lit "，不需要人工解锁" ∷ []))
          else do
            _ ← require_rows run_id db.results
            let status =
                broken_status (done_count run_id db.results) (unknown_count run_id db.results)
            let summary = confirmation_text run_id db.results note
            ok (
              record { deployment_run_id = run_id; status = status; summary = summary },
              confirmed now run status summary actor note db,
            ))

-- WHERE id = ?1 AND status IN ('queued', 'running')
abbrev pub is_open_run : ℕ → RunRow → Bool
is_open_run run_id run = run_id_is run_id run && Runs.is_cancelable run.status

unfoldable pub fail_run : ℕ → RunStatus → Message → RunRow → RunRow
fail_run now status summary run = record run {
  status = status;
  summary = summary;
  finished_at = some now;
  updated_at = now;
}

unfoldable pub fail_task : ℕ → RunStatus → Message → TaskRow → TaskRow
fail_task now status summary task = record task {
  status = broken_task_status status;
  phase = broken_task_phase status;
  summary = summary;
  exit_code = some (ℤ.pos 1);
  finished_at = some now;
  updated_at = now;
}

-- The UPDATEs that follow the counts; the unit results are already interrupted.
unfoldable pub failed : ℕ → ℕ → ℕ → ℕ → Message → Db → Db
failed now run_id task_id environment_id summary db =
    let succeeded = done_count run_id db.results in
    let status = broken_status succeeded (unknown_count run_id db.results) in
    record db {
      runs = update_where (is_open_run run_id) (fail_run now status summary) db.runs;
      steps =
          update_where (λ step. (step.task_id == task_id) && Steps.is_running step.status)
            (fail_step now) db.steps;
      phases =
          update_where (λ phase. (phase.task_id == task_id) && Steps.is_open phase.status)
            (interrupt_phase now) db.phases;
      tasks =
          update_where (λ task. task_id_is task_id task && Tasks.is_open task.status)
            (fail_task now status summary) db.tasks;
      environments =
          update_where (environment_id_is environment_id)
            (λ environment. record environment {
              runtime_status =
                  if ltb 0 succeeded
                  then EnvironmentRuntime.partial_unhealthy
                  else EnvironmentRuntime.unknown;
              last_deployment_status = last_deployment status;
              updated_at = now;
            })
            db.environments;
    }

unfoldable pub internal_error_text : String → Message
internal_error_text error_message =
    lit "部署编排异常终止：" ∷ lit (take_chars 1000 (trim error_message)) ∷ []

-- The selected run, with its task. A row whose `task_id` is NULL does not decode.
unfoldable pub fail_selected : ℕ → ℕ → Message → Option RunRow → Db → Tx Bool
fail_selected now run_id summary none db = ok (false, db)
fail_selected now run_id summary (some run) db = do
  task_id ←
      ok_or run.task_id
        (OrchestratorError.database (lit "unexpected null; try decoding as an `Option`" ∷ []))
  let db₁ = record db {
    results = interrupt_results now run_id "orchestrator_internal_error" (λ _. summary) db.results;
  }
  _ ← require_rows run_id db₁.results
  ok (true, failed now run_id task_id run.environment_id summary db₁)

unfoldable pub fail_run_on_internal_error : ℕ → ℕ → String → Db → Tx Bool
fail_run_on_internal_error now run_id error_message db =
    fail_selected now run_id (internal_error_text error_message) (find (is_open_run run_id) db.runs)
      db
