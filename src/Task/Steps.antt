-- ===== src/Task/Steps.antt =====
-- The steps and the node results of a task (api/src/tasks.rs, `TaskService`). A transaction that
-- fails writes nothing.
use Prim.Native.Nat.{max}
use Prim.Native.String.{◌++◌ as text_append}
use easy_deploy.Prelude.{
  ℕ, ℤ, String, Option, none, some, List, [], ◌∷◌, ◌++◌, Bool, ◌&&◌, ◌||◌, ◌+◌, any, if◌then◌else◌,
  ltb, ◌==◌, Result, ok, err, ◌>>=◌,
}
use easy_deploy.Prelude.Table.{update_where}
use easy_deploy.Prelude.Text.{trim}
use easy_deploy.Run.Types.{StepStatus}
use easy_deploy.Task.Types.{
  TaskError, not_found, LogStream, TaskPhase, TaskStep, TaskNodeResult, NodeResultStatus, TaskDb,
  StartTaskStepInput, TaskNodeResultInput,
}
use easy_deploy.Task.Names.{
  data_error, normalize_node_result_status, normalize_step_status, normalize_step_key,
  required_step_text,
}
use easy_deploy.Task.Service.{task_is, step_of, insert_log, log_of}
use easy_deploy.Task.Finish.{is_open_phase}
use easy_deploy.Task.Phases.{log_unless_empty}

unfoldable pub last_step_no : ℕ → List TaskStep → ℕ
last_step_no task_id [] = 0
last_step_no task_id (step ∷ steps) =
    let rest = last_step_no task_id steps in
    if step_of task_id step then max step.step_no rest else rest

-- The running phase of the task with the greatest number, and the greatest id among those.
abbrev pub comes_after : TaskPhase → TaskPhase → Bool
comes_after a b = ltb b.phase_no a.phase_no || a.phase_no == b.phase_no && ltb b.id a.id

unfoldable pub last_open_phase : ℕ → List TaskPhase → Option TaskPhase
last_open_phase task_id [] = none
last_open_phase task_id (phase ∷ phases) =
    let rest = last_open_phase task_id phases in
    if is_open_phase task_id phase
    then elim rest [
      | none ↦ some phase
      | some other ↦ some (if comes_after phase other then phase else other)
    ]
    else rest

abbrev pub phase_id_of : Option TaskPhase → Option ℕ
phase_id_of none = none
phase_id_of (some phase) = some phase.id

unfoldable pub new_step :
    ℕ → ℕ → Option ℕ → ℕ → String → String → String → StartTaskStepInput → TaskStep
new_step now id phase_id step_no step_key title command input = record {
  id = id;
  task_id = input.task_id;
  phase_id = phase_id;
  node_id = input.node_id;
  step_no = step_no;
  step_key = step_key;
  title = title;
  command = command;
  status = StepStatus.running;
  exit_code = none;
  started_at = some now;
  finished_at = none;
  updated_at = now;
}

unfoldable pub start_step : String → ℕ → StartTaskStepInput → TaskDb → Result (ℕ × TaskDb) TaskError
unfolding normalize_step_key required_step_text trim last_step_no last_open_phase new_step
    insert_log
start_step missing now input db = do
  step_key ← normalize_step_key input.step_key
  title ← required_step_text input.title "步骤名称不能为空"
  let phase_id = phase_id_of (last_open_phase input.task_id db.phases)
  db' ←
      insert_log missing
        (log_of input.task_id (some db.next_step_id) LogStream.system (text_append "开始步骤: " title))
        (record db {
          steps =
              db.steps
              ++ new_step now db.next_step_id phase_id (last_step_no input.task_id db.steps + 1)
                  step_key title (trim input.command) input
                ∷ [];
          next_step_id = db.next_step_id + 1;
        })
  ok (db.next_step_id, db')

abbrev pub is_step : ℕ → ℕ → TaskStep → Bool
is_step task_id step_id step = step_of task_id step && step.id == step_id

unfoldable pub end_step : ℕ → StepStatus → Option ℤ → TaskStep → TaskStep
end_step now status exit_code step = record step {
  status = status;
  exit_code = exit_code;
  finished_at = some now;
  updated_at = now;
}

unfoldable pub finish_step_with_status :
    String → ℕ → ℕ → ℕ → String → Option ℤ → String → TaskDb → Result TaskDb TaskError
unfolding normalize_step_status trim any update_where end_step log_unless_empty
finish_step_with_status missing now task_id step_id status exit_code summary db = do
  status ← normalize_step_status status
  (if any (is_step task_id step_id) db.steps
      then log_unless_empty missing task_id (some step_id) (trim summary) (record db {
        steps = update_where (is_step task_id step_id) (end_step now status exit_code) db.steps;
      })
      else err (not_found "任务步骤不存在"))

unfoldable pub finish_step :
    String → ℕ → ℕ → ℕ → Option ℤ → String → TaskDb → Result TaskDb TaskError
unfolding finish_step_with_status
finish_step missing now task_id step_id exit_code summary db =
    finish_step_with_status missing now task_id step_id "success" exit_code summary db

unfoldable pub fail_step : String → ℕ → ℕ → ℕ → Option ℤ → String → TaskDb → Result TaskDb TaskError
unfolding finish_step_with_status
fail_step missing now task_id step_id exit_code summary db =
    finish_step_with_status missing now task_id step_id "failed" exit_code summary db

unfoldable pub skip_step : String → ℕ → ℕ → ℕ → String → TaskDb → Result TaskDb TaskError
unfolding finish_step_with_status
skip_step missing now task_id step_id summary db =
    finish_step_with_status missing now task_id step_id "skipped" none summary db

abbrev pub is_result : ℕ → ℕ → TaskNodeResult → Bool
is_result task_id node_id result = result.task_id == task_id && result.node_id == node_id

unfoldable pub node_result : ℕ → Option ℕ → NodeResultStatus → TaskNodeResultInput → TaskNodeResult
node_result now started_at status input = record {
  task_id = input.task_id;
  node_id = input.node_id;
  node_name = input.node_name;
  node_key = input.node_key;
  node_type = input.node_type;
  status = status;
  message = input.message;
  command_count = input.command_count;
  started_at = started_at;
  finished_at = now;
}

-- INSERT .. ON CONFLICT(task_id, node_id) DO UPDATE, which keeps the start.
unfoldable pub record_node_result :
    String → ℕ → TaskNodeResultInput → TaskDb → Result TaskDb TaskError
unfolding normalize_node_result_status any update_where node_result
record_node_result missing now input db = do
  status ← normalize_node_result_status input.status
  (if any (is_result input.task_id input.node_id) db.node_results
      then ok (record db {
        node_results =
            update_where (is_result input.task_id input.node_id)
              (λ result. node_result now result.started_at status input) db.node_results;
      })
      else if any (task_is input.task_id) db.tasks
      then ok (record db {
        node_results = db.node_results ++ node_result now (some now) status input ∷ [];
      })
      else err (data_error missing))
