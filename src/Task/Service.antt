-- ===== src/Task/Service.antt =====
-- The operations of the task service that create, start and cancel a task and write its log
-- (api/src/tasks.rs, `TaskService`). An operation that fails writes nothing.
use Prim.Native.String.{◌++◌ as text_append}
use easy_deploy.Prelude.{
  ℕ, String, Option, none, some, List, [], ◌∷◌, ◌++◌, Bool, true, false, not, ◌&&◌, ◌||◌, ◌+◌, any,
  find, if◌then◌else◌, ◌==◌, is_some, Result, ok, err, ◌>>=◌,
}
use easy_deploy.Prelude.Table.{update_where}
use easy_deploy.Run.Types.{TaskStatus, StepStatus, RunRow}
use easy_deploy.Run.Status.Runs
use easy_deploy.Task.Types.{
  TaskError, not_found, invalid_state, LogStream, OperationTask, TaskPhase, TaskStep, TaskLog,
  TaskDb, CreateTaskInput,
}
use easy_deploy.Task.Names.{
  conflict_error, data_error, is_one_of, normalize_task_phase, normalize_log_stream, status_text,
}

abbrev pub task_is : ℕ → OperationTask → Bool
task_is task_id task = task.id == task_id

abbrev pub phase_of : ℕ → TaskPhase → Bool
phase_of task_id phase = phase.task_id == task_id

abbrev pub step_of : ℕ → TaskStep → Bool
step_of task_id step = step.task_id == task_id

abbrev pub is_queued : TaskStatus → Bool
is_queued TaskStatus.queued = true
is_queued _ = false

abbrev pub is_running : TaskStatus → Bool
is_running TaskStatus.running = true
is_running _ = false

-- status IN ('queued', 'running')
abbrev pub is_open : TaskStatus → Bool
is_open status = is_queued status || is_running status

abbrev pub runs_now : StepStatus → Bool
runs_now StepStatus.running = true
runs_now _ = false

-- The kinds that the trigger of `operation_tasks` guards.
abbrev pub guarded_kinds : List String
guarded_kinds =
    "compose.up" ∷ "compose.down" ∷ "compose.restart" ∷ "binary.restart" ∷ "binary.stop"
    ∷ "artifact.git_publish" ∷ "release.deploy" ∷ "release.rollback" ∷ "release.manual_apply" ∷ []

-- The kinds of the queries on open tasks.
abbrev pub deploying_kinds : List String
deploying_kinds =
    "compose.up" ∷ "compose.down" ∷ "compose.restart" ∷ "binary.restart" ∷ "binary.stop"
    ∷ "release.deploy" ∷ "release.rollback" ∷ "release.manual_apply" ∷ "node.install.docker"
    ∷ "node.install.compose" ∷ "node.install.caddy" ∷ "node.install.nginx" ∷ []

abbrev pub is_app : ℕ → Option ℕ → Bool
is_app app_id none = false
is_app app_id (some other) = other == app_id

-- An open task of an application, outside of its environments, that the trigger guards.
abbrev pub guards_app : ℕ → OperationTask → Bool
guards_app app_id task =
    is_open task.status
    && (is_one_of guarded_kinds task.task_kind
        && (not (is_some task.environment_id) && is_app app_id task.app_id))

-- The trigger's refusal of a queued task without an environment.
unfoldable pub trigger_refuses : CreateTaskInput → TaskDb → Bool
unfolding is_one_of any
trigger_refuses input db = elim input.app_id [
  | none ↦ false
  | some app_id ↦ is_one_of guarded_kinds input.task_kind && any (guards_app app_id) db.tasks
]

unfoldable pub new_task : ℕ → ℕ → CreateTaskInput → OperationTask
new_task now id input = record {
  id = id;
  task_kind = input.task_kind;
  title = input.title;
  app_id = input.app_id;
  release_id = input.release_id;
  node_id = input.node_id;
  environment_id = none;
  status = TaskStatus.queued;
  phase = "queued";
  command = "";
  summary = "";
  exit_code = none;
  created_by = input.created_by;
  started_at = none;
  finished_at = none;
  updated_at = now;
}

unfoldable pub create_task : ℕ → CreateTaskInput → TaskDb → Result (ℕ × TaskDb) TaskError
unfolding trigger_refuses new_task
create_task now input db =
    if trigger_refuses input db
    then err conflict_error
    else ok (
      db.next_task_id,
      record db {
        tasks = db.tasks ++ new_task now db.next_task_id input ∷ [];
        next_task_id = db.next_task_id + 1;
      },
    )

-- A log entry refers to a task; the text is that of sqlx's error for a missing one.
unfoldable pub insert_log : String → TaskLog → TaskDb → Result TaskDb TaskError
unfolding any
insert_log missing log db =
    if any (task_is log.task_id) db.tasks
    then ok (record db { logs = db.logs ++ log ∷ [] })
    else err (data_error missing)

abbrev pub log_of : ℕ → Option ℕ → LogStream → String → TaskLog
log_of task_id step_id stream content = record {
  task_id = task_id;
  step_id = step_id;
  stream = stream;
  content = content;
}

unfoldable pub append_log : String → ℕ → String → String → TaskDb → Result TaskDb TaskError
unfolding normalize_log_stream insert_log
append_log missing task_id stream content db = do
  stream ← normalize_log_stream stream
  insert_log missing (log_of task_id none stream content) db

unfoldable pub append_step_log : String → ℕ → ℕ → String → String → TaskDb → Result TaskDb TaskError
unfolding normalize_log_stream insert_log
append_step_log missing task_id step_id stream content db = do
  stream ← normalize_log_stream stream
  insert_log missing (log_of task_id (some step_id) stream content) db

unfoldable pub raw_status : ℕ → TaskDb → Result TaskStatus TaskError
unfolding find
raw_status task_id db = elim (find (task_is task_id) db.tasks) [
  | none ↦ err (not_found "任务不存在")
  | some task ↦ ok task.status
]

abbrev pub is_queued_task : ℕ → OperationTask → Bool
is_queued_task task_id task = task_is task_id task && is_queued task.status

unfoldable pub start_task : ℕ → String → String → OperationTask → OperationTask
start_task now phase command task = record task {
  status = TaskStatus.running;
  phase = phase;
  command = command;
  started_at = some now;
  updated_at = now;
}

abbrev pub not_started :
    TaskStatus → Result (Bool × TaskDb) TaskError → Result (Bool × TaskDb) TaskError
not_started TaskStatus.canceled canceled = canceled
not_started status canceled =
    err (invalid_state (text_append "任务当前状态为 " (text_append (status_text status) "，不能进入执行中")))

unfoldable pub mark_running :
    String → ℕ → ℕ → String → String → TaskDb → Result (Bool × TaskDb) TaskError
unfolding normalize_task_phase any raw_status update_where start_task append_log status_text
mark_running missing now task_id command phase db = do
  phase ← normalize_task_phase phase
  (if any (is_queued_task task_id) db.tasks
      then (do
        db' ← append_log missing task_id "system" (text_append "开始执行: " command) (record db {
          tasks = update_where (is_queued_task task_id) (start_task now phase command) db.tasks;
        })
        ok (true, db'))
      else (do status ← raw_status task_id db; not_started status (ok (false, db))))

abbrev pub holds_task : ℕ → RunRow → Bool
holds_task task_id run = is_app task_id run.task_id && Runs.is_active run.status

abbrev pub is_cancelable : TaskDb → ℕ → OperationTask → Bool
is_cancelable db task_id task =
    is_queued_task task_id task && not (any (holds_task task.id) db.runs)

unfoldable pub cancel_task : ℕ → String → OperationTask → OperationTask
cancel_task now message task = record task {
  status = TaskStatus.canceled;
  phase = "canceled";
  summary = message;
  finished_at = some now;
  updated_at = now;
}

unfoldable pub cancel_queued : String → ℕ → ℕ → String → TaskDb → Result TaskDb TaskError
unfolding any update_where cancel_task append_log raw_status status_text
cancel_queued missing now task_id actor db =
    let message = text_append actor " 取消了排队任务" in
    if any (is_cancelable db task_id) db.tasks
    then append_log missing task_id "system" message (record db {
      tasks = update_where (is_cancelable db task_id) (cancel_task now message) db.tasks;
    })
    else if any (holds_task task_id) db.runs
    then err (invalid_state "环境部署任务必须通过部署取消入口处理")
    else (do
      status ← raw_status task_id db
      err (invalid_state (text_append "任务当前状态为 " (text_append (status_text status) "，只能取消等待中的任务"))))
