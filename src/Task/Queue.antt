-- ===== src/Task/Queue.antt =====
-- The queries on open tasks (api/src/tasks.rs, `TaskService`).
use easy_deploy.Prelude.{
  ℕ, Option, none, some, Bool, not, ◌&&◌, any, find, count, if◌then◌else◌, ltb, Result, ok, err,
}
use easy_deploy.Task.Types.{TaskError, not_found, OperationTask, TaskDb}
use easy_deploy.Task.Names.{is_one_of}
use easy_deploy.Task.Service.{task_is, is_queued, is_running, is_open, is_app, deploying_kinds}

abbrev pub is_deploying : OperationTask → Bool
is_deploying task = is_open task.status && is_one_of deploying_kinds task.task_kind

-- The first running deploying task of the application, or else the first queued one.
unfoldable pub active_app_task : ℕ → TaskDb → Option OperationTask
unfolding find is_one_of
active_app_task app_id db =
    elim (find (λ task. is_app app_id task.app_id && (is_deploying task && is_running task.status))
      db.tasks) [
        | some task ↦ some task
        | none ↦ find (λ task. is_app app_id task.app_id && is_deploying task) db.tasks
      ]

pub record TaskQueuePositionItem : Type 0 where
  pub queued_before : ℕ
  pub running_before : ℕ

unfoldable pub task_queue_position : ℕ → TaskDb → Result TaskQueuePositionItem TaskError
unfolding any count is_one_of
task_queue_position task_id db =
    if any (task_is task_id) db.tasks
    then ok (record {
      queued_before =
          count (λ other. is_deploying other && (is_queued other.status && ltb other.id task_id))
            db.tasks;
      running_before =
          count
            (λ other.
              is_deploying other && (is_running other.status && not (task_is task_id other)))
            db.tasks;
    })
    else err (not_found "任务不存在")
