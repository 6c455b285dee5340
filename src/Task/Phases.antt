-- ===== src/Task/Phases.antt =====
-- The phases of a task (api/src/tasks.rs, `TaskService`). A transaction that fails writes nothing.
use Prim.Native.Nat.{max}
use Prim.Native.String.{◌++◌ as text_append}
use easy_deploy.Prelude.{
  ℕ, String, Option, none, some, List, [], ◌∷◌, ◌++◌, Bool, not, ◌&&◌, ◌+◌, any, if◌then◌else◌,
  ◌==◌, str_eq, Result, ok, err, ◌>>=◌,
}
use easy_deploy.Prelude.Table.{update_where}
use easy_deploy.Prelude.Text.{trim, text_is_empty}
use easy_deploy.Run.Types.{StepStatus}
use easy_deploy.Task.Types.{
  TaskError, not_found, LogStream, OperationTask, TaskPhase, TaskDb, StartTaskPhaseInput,
}
use easy_deploy.Task.Names.{
  conflict_error, normalize_task_phase, task_phase_title, normalize_step_status, normalize_step_key,
  required_step_text,
}
use easy_deploy.Task.Service.{task_is, phase_of, is_running, insert_log, log_of}
use easy_deploy.Task.Finish.{or_now, is_open_phase, close_phase}

-- COALESCE(MAX(phase_no), 0) + 1, of the task.
unfoldable pub last_phase_no : ℕ → List TaskPhase → ℕ
last_phase_no task_id [] = 0
last_phase_no task_id (phase ∷ phases) =
    let rest = last_phase_no task_id phases in
    if phase_of task_id phase then max phase.phase_no rest else rest

unfoldable pub new_phase : ℕ → ℕ → ℕ → ℕ → String → String → TaskPhase
new_phase now id task_id phase_no phase_key title = record {
  id = id;
  task_id = task_id;
  phase_no = phase_no;
  phase_key = phase_key;
  title = title;
  status = StepStatus.running;
  summary = "";
  started_at = some now;
  finished_at = none;
  updated_at = now;
}

-- `INSERT INTO operation_task_phases`, with the next number of the task.
unfoldable pub insert_phase : ℕ → ℕ → String → String → TaskDb → TaskDb
unfolding last_phase_no new_phase
insert_phase now task_id phase_key title db = record db {
  phases =
      db.phases
      ++ new_phase now db.next_phase_id task_id (last_phase_no task_id db.phases + 1) phase_key
          title
        ∷ [];
  next_phase_id = db.next_phase_id + 1;
}

abbrev pub has_key : ℕ → String → TaskPhase → Bool
has_key task_id phase_key phase = phase_of task_id phase && str_eq phase.phase_key phase_key

unfoldable pub reopen_phase : ℕ → String → TaskPhase → TaskPhase
reopen_phase now title phase = record phase {
  title = title;
  status = StepStatus.running;
  started_at = or_now now phase.started_at;
  finished_at = none;
  updated_at = now;
}

abbrev pub is_running_task : ℕ → OperationTask → Bool
is_running_task task_id task = task_is task_id task && is_running task.status

unfoldable pub set_phase : ℕ → String → OperationTask → OperationTask
set_phase now phase task = record task { phase = phase; updated_at = now }

-- A running phase of the task with another key.
abbrev pub is_other_open : ℕ → String → TaskPhase → Bool
is_other_open task_id phase_key phase =
    is_open_phase task_id phase && not (str_eq phase.phase_key phase_key)

unfoldable pub enter_phase : ℕ → ℕ → String → TaskDb → TaskDb
unfolding update_where close_phase reopen_phase any task_phase_title insert_phase
enter_phase now task_id phase db =
    let closed =
      update_where (is_other_open task_id phase) (close_phase now StepStatus.success) db.phases in
    if any (has_key task_id phase) closed
    then record db {
      phases =
          update_where (has_key task_id phase) (reopen_phase now (task_phase_title phase)) closed;
    }
    else insert_phase now task_id phase (task_phase_title phase) (record db { phases = closed })

unfoldable pub update_phase : ℕ → ℕ → String → TaskDb → Result TaskDb TaskError
unfolding normalize_task_phase any update_where set_phase enter_phase
update_phase now task_id phase db = do
  phase ← normalize_task_phase phase
  ok (
      if any (is_running_task task_id) db.tasks
      then enter_phase now task_id phase (record db {
        tasks = update_where (is_running_task task_id) (set_phase now phase) db.tasks;
      })
      else db)

-- The texts are those of sqlx's error for a missing task.
unfoldable pub start_phase :
    String → ℕ → StartTaskPhaseInput → TaskDb → Result (ℕ × TaskDb) TaskError
unfolding normalize_step_key required_step_text any insert_phase insert_log
start_phase missing now input db = do
  phase_key ← normalize_step_key input.phase_key
  title ← required_step_text input.title "任务阶段名称不能为空"
  (if any (has_key input.task_id phase_key) db.phases then err conflict_error else (do
    db' ←
        insert_log missing (log_of input.task_id none LogStream.system (text_append "开始阶段: " title))
          (insert_phase now input.task_id phase_key title db)
    ok (db.next_phase_id, db')))

abbrev pub is_phase : ℕ → ℕ → TaskPhase → Bool
is_phase task_id phase_id phase = phase_of task_id phase && phase.id == phase_id

unfoldable pub finish_phase_row : ℕ → StepStatus → String → TaskPhase → TaskPhase
finish_phase_row now status summary phase = record phase {
  status = status;
  summary = summary;
  finished_at = some now;
  updated_at = now;
}

-- A log entry unless its text is empty.
unfoldable pub log_unless_empty : String → ℕ → Option ℕ → String → TaskDb → Result TaskDb TaskError
unfolding insert_log
log_unless_empty missing task_id step_id summary db =
    if text_is_empty summary
    then ok db
    else insert_log missing (log_of task_id step_id LogStream.system summary) db

unfoldable pub finish_phase :
    String → ℕ → ℕ → ℕ → String → String → TaskDb → Result TaskDb TaskError
unfolding normalize_step_status trim any update_where finish_phase_row log_unless_empty
finish_phase missing now task_id phase_id status summary db = do
  status ← normalize_step_status status
  let summary = trim summary
  (if any (is_phase task_id phase_id) db.phases
      then log_unless_empty missing task_id none summary (record db {
        phases =
            update_where (is_phase task_id phase_id) (finish_phase_row now status summary)
              db.phases;
      })
      else err (not_found "任务阶段不存在"))
