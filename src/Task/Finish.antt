-- ===== src/Task/Finish.antt =====
-- The ends of a task (api/src/tasks.rs, `TaskService`). An operation that fails writes nothing.
use easy_deploy.Prelude.{
  ℕ, ℤ, String, Option, none, some, Bool, ◌&&◌, if◌then◌else◌, Result, ok, ◌>>=◌, pos,
}
use easy_deploy.Prelude.Table.{update_where}
use easy_deploy.Prelude.Text.{trim, text_is_empty}
use easy_deploy.Run.Types.{TaskStatus, StepStatus}
use easy_deploy.Task.Types.{TaskError, OperationTask, TaskPhase, TaskDb, ComposeCommandOutput}
use easy_deploy.Task.Names.{normalize_step_status, first_lines}
use easy_deploy.Task.Service.{task_is, phase_of, runs_now, append_log}

abbrev pub or_now : ℕ → Option ℕ → Option ℕ
or_now now none = some now
or_now now (some at) = some at

unfoldable pub close_phase : ℕ → StepStatus → TaskPhase → TaskPhase
close_phase now status phase = record phase {
  status = status;
  finished_at = or_now now phase.finished_at;
  updated_at = now;
}

abbrev pub is_open_phase : ℕ → TaskPhase → Bool
is_open_phase task_id phase = phase_of task_id phase && runs_now phase.status

unfoldable pub finish_open_phases : ℕ → ℕ → String → TaskDb → Result TaskDb TaskError
unfolding normalize_step_status update_where close_phase
finish_open_phases now task_id status db = do
  status ← normalize_step_status status
  ok (record db {
    phases = update_where (is_open_phase task_id) (close_phase now status) db.phases;
  })

unfoldable pub end_task :
    ℕ → TaskStatus → String → Option String → String → Option ℤ → OperationTask → OperationTask
end_task now status phase command summary exit_code task = record task {
  status = status;
  phase = phase;
  command = elim command [ none ↦ task.command | some text ↦ text ];
  summary = summary;
  exit_code = elim command [ none ↦ task.exit_code | some _ ↦ exit_code ];
  finished_at = some now;
  updated_at = now;
}

unfoldable pub compose_summary : ComposeCommandOutput → String
unfolding trim first_lines
compose_summary output =
    if text_is_empty (trim output.output) then "命令没有输出" else first_lines output.output 3

-- With the status, the phase and the status of the phases that the command's success decides.
unfoldable pub finish_composed :
    String
    → ℕ
    → ℕ
    → TaskStatus
    → String
    → String
    → ComposeCommandOutput
    → TaskDb
    → Result TaskDb TaskError
unfolding update_where end_task compose_summary finish_open_phases append_log
finish_composed missing now task_id status phase phase_status output db = do
  db ← finish_open_phases now task_id phase_status (record db {
    tasks =
        update_where (task_is task_id)
          (end_task now status phase (some output.command) (compose_summary output)
            output.status_code)
          db.tasks;
  })
  append_log missing task_id "combined" output.output db

unfoldable pub finish_with_compose_output :
    String → ℕ → ℕ → ComposeCommandOutput → TaskDb → Result TaskDb TaskError
unfolding finish_composed
finish_with_compose_output missing now task_id output db =
    if output.success
    then finish_composed missing now task_id TaskStatus.success "completed" "success" output db
    else finish_composed missing now task_id TaskStatus.failed "failed" "failed" output db

unfoldable pub finish_success : String → ℕ → ℕ → String → String → TaskDb → Result TaskDb TaskError
unfolding update_where end_task finish_open_phases append_log
finish_success missing now task_id command summary db = do
  db ← finish_open_phases now task_id "success" (record db {
    tasks =
        update_where (task_is task_id)
          (end_task now TaskStatus.success "completed" (some command) summary (some (pos 0)))
          db.tasks;
  })
  append_log missing task_id "system" summary db

unfoldable pub fail_task : String → ℕ → ℕ → String → TaskDb → Result TaskDb TaskError
unfolding update_where end_task finish_open_phases append_log
fail_task missing now task_id message db = do
  db ← finish_open_phases now task_id "failed" (record db {
    tasks =
        update_where (task_is task_id) (end_task now TaskStatus.failed "failed" none message none)
          db.tasks;
  })
  append_log missing task_id "system" message db

abbrev pub finish_failed : String → ℕ → ℕ → String → TaskDb → Result TaskDb TaskError
finish_failed = fail_task
